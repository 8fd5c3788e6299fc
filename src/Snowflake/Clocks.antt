-- ===== src/Snowflake/Clocks.antt =====
-- `Generate` against clocks: when it fails, when it returns, and what a clock that has not caught up
-- after the sleep does.
use shortlink_system.Base.{
  ℕ, ◌+◌, ◌<◌, ◌≤◌, ◌≡◌, ◌≢◌, ◌↔◌, List, [], ◌∷◌, ◌++◌, arith, none, some, Option-cases, inl, inr,
}
use shortlink_system.Snowflake.{
  Node, issued, severe, waiting, make_id, spin, issue, tick, after_sleep, generate,
}

tick-ne-severe : (n m : Node) (now : ℕ) (clock rest : List ℕ) → tick n now clock ≢ severe m rest
unfolding tick issue
tick-ne-severe n m now clock rest e = elim (Option-cases (spin n.timestamp now clock)) [
  | inl stuck ↦ ground (arith, stuck, e)
  | inr (found, is) ↦ ground (arith, is, e)
]

-- A call that fails leaves the node as it was, and takes one reading.
pub severe_unchanged :
    (n m : Node) (now : ℕ) (clock rest : List ℕ)
    → generate n (now ∷ clock) ≡ severe m rest
    → (m ≡ n) × (rest ≡ clock) × (now + 5 < n.timestamp)
unfolding generate after_sleep
severe_unchanged n m now [] rest e = ground (arith, tick-ne-severe n m now [] rest)
severe_unchanged n m now (next ∷ clock) rest e =
    ground (arith, tick-ne-severe n m now (next ∷ clock) rest, tick-ne-severe n m next clock rest)

-- The call fails exactly when its first reading is more than 5 ms behind the node, and then the node
-- is left as it was and no other reading is taken. A call that sleeps does not fail any more.
pub generate-severe_iff :
    (n m : Node) (now : ℕ) (clock rest : List ℕ)
    → (generate n (now ∷ clock) ≡ severe m rest)
      ↔ ((m ≡ n) × (rest ≡ clock) × (now + 5 < n.timestamp))
generate-severe_iff n m now clock rest =
    (severe_unchanged n m now clock rest, (λ (same, left, h). back same left h))
  where
    back : m ≡ n → rest ≡ clock → now + 5 < n.timestamp → generate n (now ∷ clock) ≡ severe m rest
    back same left h = rw (same, left) (unfold generate in ground arith)

spin_past :
    (timestamp u : ℕ) (back : List ℕ) → timestamp < u → spin timestamp u back ≡ some (u, back)
unfolding spin
spin_past timestamp u [] h = ground arith
spin_past timestamp u (v ∷ back) h = ground arith

spin_ends :
    (timestamp now u : ℕ) (front back : List ℕ)
    → timestamp < u
    → spin timestamp now (front ++ (u ∷ back)) ≢ none
unfolding spin
spin_ends timestamp now u [] back h = ground (arith, spin_past timestamp u back h)
spin_ends timestamp now u (v ∷ front) back h = ground (arith, spin_ends timestamp v u front back h)

tick-ne-waiting :
    (n m : Node) (now u : ℕ) (front back : List ℕ)
    → n.timestamp < u
    → tick n now (front ++ (u ∷ back)) ≢ waiting m
unfolding tick issue
tick-ne-waiting n m now u front back h e =
    elim (Option-cases (spin n.timestamp now (front ++ (u ∷ back)))) [
      | inl stuck ↦ spin_ends n.timestamp now u front back h stuck
      | inr (found, is) ↦ ground (arith, is, e)
    ]

-- The call returns, with an identifier or the error, as soon as a reading after the first two is
-- later than the node: it waits for no other.
pub generate-ne-waiting :
    (n m : Node) (now next u : ℕ) (front back : List ℕ)
    → n.timestamp < u
    → generate n (now ∷ next ∷ front ++ (u ∷ back)) ≢ waiting m
unfolding generate after_sleep
generate-ne-waiting n m now next u front back h e = ground (
  arith,
  tick-ne-waiting n m now u (next ∷ front) back h,
  tick-ne-waiting n m next u front back h,
)

-- If a reading is up to 5 ms behind the node and the one after the sleep is still behind it, however
-- far, the node issues again the identifier that it issued, or a node with its number and an older
-- time issues, when the millisecond of the second reading was new.
pub generate_repeats :
    (old n : Node) (now next : ℕ) (clock clock' : List ℕ)
    → old.node_id ≡ n.node_id
    → old.timestamp < next
    → now < n.timestamp
    → n.timestamp ≤ now + 5
    → next < n.timestamp
    → (id : ℕ) × (generate old (next ∷ clock)
        ≡ issued id (record old { timestamp = next; step = 0 }) clock)
      × (generate n (now ∷ next ∷ clock')
          ≡ issued id (record n { timestamp = next; step = 0 }) clock')
unfolding generate after_sleep tick issue
generate_repeats old n now next clock clock' e h j l k =
    (make_id next n.node_id 0, ground arith, ground arith)
