-- ===== src/Helper/Tests.antt =====
-- Two identifiers of one process.
use hare_mq.Base.{◌≡◌, ◌+◌, arith}
use hare_mq.Helper.Uuid.{uuid}
use hare_mq.Helper.Unique.{uuid_unique}

uuid_unique_example : ¬ (uuid (λ i. i) 1 ≡ uuid (λ i. i + 1) 9)
uuid_unique_example =
    uuid_unique (λ i. i) (λ i. i + 1) 1 9 (omega arith) (omega arith) (λ e. omega (arith, e))
