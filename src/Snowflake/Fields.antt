-- ===== src/Snowflake/Fields.antt =====
-- The three fields of an identifier.
use Prim.Native.Nat.{bit_or}
use shortlink_system.Base.{ℕ, ◌+◌, ◌-◌, ◌*◌, ◌/◌, ◌%◌, ◌^◌, ◌<◌, ◌≤◌, ◌≡◌, ap, ◌∙◌, arith}
use shortlink_system.Base.Bits.{bit_or_shift}
use shortlink_system.Snowflake.{epoch, make_id}

-- The times that 41 bits hold: from the epoch on, for some 69 years.
pub record InEra (now : ℕ) : Type 0 where
  pub started : epoch ≤ now
  pub ends : now < epoch + 2 ^ 41

-- The identifier as a sum.
pub make_id-sum :
    (now node_id step : ℕ)
    → InEra now
    → node_id < 1024
    → step < 4096
    → make_id now node_id step ≡ ((now - epoch) * 1024 + node_id) * 4096 + step
unfolding make_id
make_id-sum now node_id step t hn hs =
    let time : (now + 2 ^ 64 - epoch) % 2 ^ 64 * 2 ^ 22 % 2 ^ 64 ≡ (now - epoch) * 2 ^ 22 =
      omega arith in
    let regroup : (now - epoch) * 2 ^ 22 + node_id * 2 ^ 12
        ≡ ((now - epoch) * 1024 + node_id) * 2 ^ 12 =
      omega arith in
    ap (λ t. bit_or (bit_or t (node_id * 2 ^ 12)) step) time
    ∙ ap (λ t. bit_or t step)
        (bit_or_shift 22 (now - epoch) (node_id * 2 ^ 12) (omega arith) ∙ regroup)
    ∙ bit_or_shift 12 ((now - epoch) * 1024 + node_id) step hs

-- An identifier fits a positive int64, and its fields can be read back: 41 bits of time since the
-- epoch, 10 bits of node, 12 bits of sequence number.
pub make_id_fields :
    (now node_id step : ℕ)
    → InEra now
    → node_id < 1024
    → step < 4096
    → (make_id now node_id step < 2 ^ 63)
      × (make_id now node_id step / 2 ^ 22 ≡ now - epoch)
      × (make_id now node_id step / 2 ^ 12 % 2 ^ 10 ≡ node_id)
      × (make_id now node_id step % 2 ^ 12 ≡ step)
make_id_fields now node_id step t hn hs =
    let e = make_id-sum now node_id step t hn hs in omega (arith, e)
