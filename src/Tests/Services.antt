-- ===== src/Tests/Services.antt =====
-- The replacement of certificates over the reference model, which is transactional.
use micromdm.Base.{string_dec, refl, false, List, ◌∷◌, [], ok, ◌≡◌, ◌≢◌, arith, panic}
use micromdm.Services.Sql.{Insert, Value}
use micromdm.Services.Backend.{Backend, tables, insert, referred}
use micromdm.Certificate.Datastore.{Certificate, replace_certificates_by_device_uuid}
use micromdm.Certificate.Atomic.{IsTransactional, IsAtomic, replace-IsAtomic}
use micromdm.Tests.Data.{server}

insert-before : (q : Insert) (vs : List Value) (b : Backend) → (insert q vs b).1.before ≡ b.before
unfolding insert
insert-before q vs b = ground arith

insert-no_panic : (q : Insert) (vs : List Value) (b : Backend) → (insert q vs b).0 ≢ panic
unfolding insert
insert-no_panic q vs b = ground arith

tables-IsTransactional : IsTransactional tables (λ b. b.rows) (λ b. b.before)
unfolding referred string_dec
tables-IsTransactional = record {
  begins = λ w h. refl;
  delete_stays_open = λ t qs w. ground arith;
  insert_stays_open = insert-before;
  insert_returns = insert-no_panic;
  commits = λ w. (refl, ground arith);
  rolls_back = λ w ts h. (ground (arith, h), ground (arith, h), ground arith);
}

abbrev root : Certificate
root = record {
  uuid = "";
  device_uuid = "00000000-0000-0000-0000-000000000001";
  contents = "";
  common_name = "root";
  is_identity = false;
}

replace-IsAtomic_example :
    let (r, w) = replace_certificates_by_device_uuid tables root.device_uuid (root ∷ []) server in
    IsAtomic tables (λ b. b.rows) (λ b. b.before) server.rows (ok tt) r w
unfolding referred string_dec
replace-IsAtomic_example =
    replace-IsAtomic tables (λ b. b.rows) (λ b. b.before) tables-IsTransactional root.device_uuid
      (root ∷ []) server refl
