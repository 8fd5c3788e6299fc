-- ===== src/Snowflake/Order.antt =====
-- The identifiers of one node, in the order in which it issues them.
use shortlink_system.Base.{
  ℕ, ◌+◌, ◌*◌, ◌<◌, ◌≤◌, ◌≡◌, refl, List, [], ◌∷◌, arith, some, Option-cases, inl, inr,
}
use shortlink_system.Base.Bits.{bit_and_mask}
use shortlink_system.Snowflake.{
  Node, Generated, issued, severe, waiting, make_id, spin, issue, tick, after_sleep, generate,
}

pub record IsValid (n : Node) : Type 0 where
  pub node_fits : n.node_id < 1024
  pub step_fits : n.step < 4096

-- The position of the last identifier of the node, by time and then sequence number.
abbrev pub stamp : Node → ℕ
stamp n = n.timestamp * 4096 + n.step

-- After a short step backwards, the reading that follows the sleep has caught up.
abbrev pub SleepsOut : ℕ → List ℕ → Type 0
SleepsOut timestamp (now ∷ next ∷ clock) = now < timestamp → timestamp ≤ next
SleepsOut timestamp _ = Unit

-- What an issued identifier tells of the node before and after.
pub record Advances (n : Node) (id : ℕ) (n' : Node) : Type 0 where
  pub valid : IsValid n'
  pub same_node : n'.node_id ≡ n.node_id
  pub id_of : id ≡ make_id n'.timestamp n'.node_id n'.step
  pub later : stamp n < stamp n'

spin_later :
    (timestamp now : ℕ) (clock : List ℕ) (next : ℕ) (rest : List ℕ)
    → spin timestamp now clock ≡ some (next, rest)
    → timestamp < next
unfolding spin
spin_later timestamp now [] next rest e = ground arith
spin_later timestamp now (u ∷ clock) next rest e =
    ground (arith, spin_later timestamp u clock next rest)

tick-Advances :
    (n : Node) (now : ℕ) (clock : List ℕ) {id : ℕ} {n' : Node} {rest : List ℕ}
    → IsValid n
    → n.timestamp ≤ now
    → tick n now clock ≡ issued id n' rest
    → Advances n id n'
unfolding tick issue
tick-Advances n now clock {id} {n'} {rest} v h e =
    elim (Option-cases (spin n.timestamp now clock)) [
      | inl none_left ↦ ground (arith, none_left, bit_and_mask 12 (n.step + 1))
      | inr ((next, left), found) ↦ ground (
        arith,
        found,
        spin_later n.timestamp now clock next left found,
        bit_and_mask 12 (n.step + 1),
      )
    ]

-- A call that returns an identifier moves the node forward, by the time or by the sequence number,
-- and the identifier is that of the new state.
pub generate-Advances :
    (n : Node) (clock : List ℕ) {id : ℕ} {n' : Node} {rest : List ℕ}
    → IsValid n
    → SleepsOut n.timestamp clock
    → generate n clock ≡ issued id n' rest
    → Advances n id n'
unfolding generate after_sleep
generate-Advances n [] v s e = cc
generate-Advances n (now ∷ []) {id} {n'} {rest} v s e =
    ground (arith, tick-Advances n now [] {id = id} {n' = n'} {rest = rest} v)
generate-Advances n (now ∷ next ∷ clock) {id} {n'} {rest} v s e = ground (
  arith,
  tick-Advances n now (next ∷ clock) {id = id} {n' = n'} {rest = rest} v,
  tick-Advances n next clock {id = id} {n' = n'} {rest = rest} v,
)

-- The node after a call.
abbrev pub node_of : Generated → Node
node_of (issued id n clock) = n
node_of (severe n clock) = n
node_of (waiting n) = n

tick_fits :
    (n : Node) (now : ℕ) (clock : List ℕ)
    → IsValid n
    → ((node_of (tick n now clock)).node_id ≡ n.node_id)
      × ((node_of (tick n now clock)).step < 4096)
unfolding tick issue
tick_fits n now clock v = elim (Option-cases (spin n.timestamp now clock)) [
  | inl none_left ↦ ground (arith, none_left, bit_and_mask 12 (n.step + 1))
  | inr ((next, left), found) ↦ ground (arith, found, bit_and_mask 12 (n.step + 1))
]

generate_fits :
    (n : Node) (clock : List ℕ)
    → IsValid n
    → ((node_of (generate n clock)).node_id ≡ n.node_id)
      × ((node_of (generate n clock)).step < 4096)
unfolding generate after_sleep
generate_fits n [] v = (refl, v.step_fits)
generate_fits n (now ∷ []) v = ground (arith, tick_fits n now [] v, v.step_fits)
generate_fits n (now ∷ next ∷ clock) v =
    ground (arith, tick_fits n now (next ∷ clock) v, tick_fits n next clock v, v.step_fits)

-- A call keeps the node valid, however it ends.
pub generate-IsValid :
    (n : Node) (clock : List ℕ) → IsValid n → IsValid (node_of (generate n clock))
generate-IsValid n clock v =
    let (same, fits) = generate_fits n clock v in
    record { node_fits = omega (arith, same, v.node_fits); step_fits = fits }
