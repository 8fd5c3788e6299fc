-- ===== src/Snowflake/Bounds.antt =====
-- The width of an identifier.
use Prim.Native.Nat.{bit_or}
use shortlink_system.Base.{
  ℕ, ◌+◌, ◌-◌, ◌*◌, ◌%◌, ◌^◌, ◌<◌, ◌≡◌, List, [], ◌∷◌, ap, ◌∙◌, arith, Option-cases, inl, inr,
}
use shortlink_system.Base.Bits.{bit_or_shift, bit_and_mask}
use shortlink_system.Snowflake.{
  epoch, Node, issued, make_id, spin, issue, tick, after_sleep, generate,
}
use shortlink_system.Snowflake.Order.{IsValid}

-- An identifier has 64 bits, whatever the clock says.
make_id-lt :
    (now node_id step : ℕ) → node_id < 1024 → step < 4096 → make_id now node_id step < 2 ^ 64
unfolding make_id
make_id-lt now node_id step hn hs =
    let a = (now + 2 ^ 64 - epoch) % 2 ^ 64 in
    let time : a * 2 ^ 22 % 2 ^ 64 ≡ a % 2 ^ 42 * 2 ^ 22 = omega arith in
    let regroup : a % 2 ^ 42 * 2 ^ 22 + node_id * 2 ^ 12 ≡ (a % 2 ^ 42 * 1024 + node_id) * 2 ^ 12 =
      omega arith in
    omega (
      arith,
      ap (λ t. bit_or (bit_or t (node_id * 2 ^ 12)) step) time
          ∙ ap (λ t. bit_or t step)
              (bit_or_shift 22 (a % 2 ^ 42) (node_id * 2 ^ 12) (omega arith) ∙ regroup)
          ∙ bit_or_shift 12 (a % 2 ^ 42 * 1024 + node_id) step hs,
    )

issue-lt :
    (n : Node) (now : ℕ) (clock : List ℕ) {id : ℕ} {n' : Node} {rest : List ℕ}
    → IsValid n
    → issue n now clock ≡ issued id n' rest
    → id < 2 ^ 64
unfolding issue
issue-lt n now clock {id} v e =
    let same : make_id now n.node_id n.step ≡ id = cc in
    omega (arith, same, make_id-lt now n.node_id n.step v.node_fits v.step_fits)

tick-lt :
    (n : Node) (now : ℕ) (clock : List ℕ) {id : ℕ} {n' : Node} {rest : List ℕ}
    → IsValid n
    → tick n now clock ≡ issued id n' rest
    → id < 2 ^ 64
unfolding tick issue
tick-lt n now clock {id} {n'} {rest} v e = elim (Option-cases (spin n.timestamp now clock)) [
  | inl none_left ↦ ground (
    arith,
    none_left,
    bit_and_mask 12 (n.step + 1),
    make_id-lt now n.node_id ((n.step + 1) % 4096) v.node_fits,
    make_id-lt now n.node_id 0 v.node_fits,
  )
  | inr ((next, left), found) ↦ ground (
    arith,
    found,
    bit_and_mask 12 (n.step + 1),
    make_id-lt now n.node_id ((n.step + 1) % 4096) v.node_fits,
    make_id-lt next n.node_id 0 v.node_fits,
    make_id-lt now n.node_id 0 v.node_fits,
  )
]

-- A call on a valid node issues an identifier of 64 bits, whatever the clock says.
pub generate-lt :
    (n : Node) (clock : List ℕ) {id : ℕ} {n' : Node} {rest : List ℕ}
    → IsValid n
    → generate n clock ≡ issued id n' rest
    → id < 2 ^ 64
unfolding generate after_sleep
generate-lt n [] v e = cc
generate-lt n (now ∷ []) {id} {n'} {rest} v e =
    ground (arith, tick-lt n now [] {id = id} {n' = n'} {rest = rest} v)
generate-lt n (now ∷ next ∷ clock) {id} {n'} {rest} v e = ground (
  arith,
  tick-lt n now (next ∷ clock) {id = id} {n' = n'} {rest = rest} v,
  tick-lt n next clock {id = id} {n' = n'} {rest = rest} v,
)
