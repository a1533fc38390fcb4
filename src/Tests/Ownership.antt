-- ===== src/Tests/Ownership.antt =====
-- app/api/transfers.py on the sample market: the shop is offered to the creator.
use ethiogram.Base.{find_first, ◌≡◌, ◌⊎◌, refl, true, false, none, some, [], ◌∷◌, arith}
use ethiogram.Models.{World, Db, Business, BusinessTransfer, Error, empty_redis}
use ethiogram.Request.{ok, err, transaction}
use ethiogram.Transfers.{
  Characters, TransferRequest, accept, accepted, has_id, not_deleted, accept_transfer,
  list_incoming, initiate_transfer, own_value,
}
use ethiogram.Transfers.Pending.{IsSingle, Step, Reaches, Reaches-IsSingle}
use ethiogram.Transfers.Consent.{IsAcceptable, accept_transfer_decides}
use ethiogram.Tests.Samples.{market_db, market, creator, buyer, shop}

-- Texts of lower-case ASCII.
abbrev ascii : Characters
ascii = record {
  is_space = λ c. false;
  is_digit = λ c. true;
  decimal = λ c. none;
  lower = λ s. s;
  sql_lower = λ s. s;
}

abbrev offer : BusinessTransfer
offer = record {
  id = 40;
  business_id = 10;
  from_user_id = 1;
  to_kind = "telegram_username";
  to_value = 99 ∷ [];
  to_user_id = some 2;
  status = "pending";
  expires_at = 1000;
  resolved_at = none;
  resolved_by_id = none;
}

abbrev offered_db : Db
offered_db = record market_db { transfers = offer ∷ [] }

abbrev offered : World
offered = record { db = offered_db; redis = empty_redis }

offered-IsSingle : IsSingle offered_db
offered-IsSingle b = ground arith

offered-IsAcceptable : IsAcceptable ascii 40 creator 500 offered_db offer shop
unfolding own_value
offered-IsAcceptable = record {
  found = refl;
  pending = refl;
  unexpired = refl;
  addressed = refl;
  business = refl;
}

-- The shop's owner offers it to the creator, who accepts.
abbrev to_creator : TransferRequest
to_creator = record { to_kind = "telegram_username"; to_value = 64 ∷ 99 ∷ [] }

abbrev made : World
made = (transaction (initiate_transfer ascii 10 to_creator buyer 500) market).1

abbrev taken : World
taken = (transaction (accept_transfer ascii 1000 creator 600) made).1

handed_over : Reaches ascii market taken
handed_over =
    Reaches.after (Reaches.after Reaches.stay (Step.initiated 10 to_creator buyer 500))
      (Step.accepting 1000 creator 600)

market-IsSingle : IsSingle market_db
market-IsSingle b = omega arith

Reaches-IsSingle_example : IsSingle taken.db
Reaches-IsSingle_example = Reaches-IsSingle ascii handed_over market-IsSingle

accept_transfer_decides_example :
    ((t : BusinessTransfer) × (b : Business) × IsAcceptable ascii 40 buyer 500 offered_db t b
      × (transaction (accept_transfer ascii 40 buyer 500) offered
          ≡ (ok b.id, record offered { db = accept t 1 500 offered_db }))
      × (find_first (not_deleted t.business_id) (accept t 1 500 offered_db).businesses
          ≡ some (record b { owner_id = 1 }))
      × (find_first (has_id 40) (accept t 1 500 offered_db).transfers ≡ some (accepted 1 500 t)))
    ⊎ ((e : Error) × (transaction (accept_transfer ascii 40 buyer 500) offered ≡ (err e, offered)))
accept_transfer_decides_example = accept_transfer_decides ascii 40 buyer 500 offered

listed : (list_incoming ascii creator 500 offered).0 ≡ ok (offer ∷ [])
unfolding list_incoming
listed = refl
