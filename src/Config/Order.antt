-- ===== src/Config/Order.antt =====
-- What a configuration that `Config::validate` of src/config.rs accepts is known to be.
use rust_enrich.Common.{◌≤◌, ◌≡◌, not, ◌&&◌, ok, leb, arith, bind-eq-ok, length, []}
use rust_enrich.Common.Text.{bytes, text_eq}
use rust_enrich.Config.{
  Config, Platform, demand, validate_secret, check_capacities, check_deadlines, check_order,
  validate,
}

check_order-Order :
    (c : Config)
    → check_order c ≡ ok tt
    → (c.connect_timeout ≤ c.provider_timeout)
      × (c.provider_timeout ≤ c.lookup_timeout)
      × (c.lookup_timeout ≤ c.request_timeout)
      × (c.storage_timeout ≤ c.lookup_timeout)
unfolding check_order demand
check_order-Order c h = (ground arith, ground arith, ground arith, ground arith)

-- An accepted configuration has its timeouts nested, the connection's in the provider's in the lookup's in
-- the request's, and the storage's in the lookup's.
pub validate-Order :
    (m : Platform) (c : Config)
    → validate m c ≡ ok tt
    → (c.connect_timeout ≤ c.provider_timeout)
      × (c.provider_timeout ≤ c.lookup_timeout)
      × (c.lookup_timeout ≤ c.request_timeout)
      × (c.storage_timeout ≤ c.lookup_timeout)
unfolding validate
validate-Order m c h =
    let (_, _, h1) = bind-eq-ok (validate_secret m c.service_token "ENRICH_SERVICE_TOKEN") _ h in
    let (_, _, h2) =
      bind-eq-ok
        (demand (leb 32 (length (bytes c.service_token))) "ENRICH_SERVICE_TOKEN"
          "requires at least 32 UTF-8 bytes")
        _ h1 in
    let (_, _, h3) =
      bind-eq-ok
        (demand (not (text_eq c.database_path [])) "ENRICH_DATABASE_PATH" "must not be empty") _
        h2 in
    let (_, _, h4) =
      bind-eq-ok
        (demand (leb 1 c.max_batch_size && leb c.max_batch_size 20) "ENRICH_MAX_BATCH_SIZE"
          "must be between 1 and 20")
        _ h3 in
    let (_, _, h5) = bind-eq-ok (check_capacities m c) _ h4 in
    let (_, _, h6) = bind-eq-ok (check_deadlines m c) _ h5 in
    let (_, e, _) = bind-eq-ok (check_order c) _ h6 in check_order-Order c e
