-- ===== src/Snowflake/Runs.antt =====
-- Sequences of calls of `Generate`, on one node and on two.
use mathlib.Core.Path.{subst}
use shortlink_system.Base.{ℕ, ◌+◌, ◌*◌, ◌<◌, ◌≡◌, ◌≢◌, sym, List, [], ◌∷◌, All, All-map, arith}
use shortlink_system.Snowflake.{Node, issued, severe, make_id, generate}
use shortlink_system.Snowflake.Fields.{InEra, make_id-sum, make_id_fields}
use shortlink_system.Snowflake.Clocks.{severe_unchanged}
use shortlink_system.Snowflake.Order.{IsValid, stamp, SleepsOut, Advances, generate-Advances}

-- Calls of `Generate`, one after the other, that issue the identifiers of the list. Each call has
-- readings of its own; a call that fails for a clock moved backwards is followed by others.
pub data Trace : Node → List ℕ → Type 0 where
  done : (n : Node) → Trace n []
  issue :
      {n n' : Node} {ids : List ℕ} (id : ℕ) (clock rest : List ℕ)
      → SleepsOut n.timestamp clock
      → generate n clock ≡ issued id n' rest
      → InEra n'.timestamp
      → Trace n' ids
      → Trace n (id ∷ ids)
  fail :
      {n n' : Node} {ids : List ℕ} (now : ℕ) (clock rest : List ℕ)
      → generate n (now ∷ clock) ≡ severe n' rest
      → Trace n' ids
      → Trace n ids

abbrev pub Increasing : List ℕ → Type 0
Increasing [] = Unit
Increasing (x ∷ xs) = All (λ y. x < y) xs × Increasing xs

-- An identifier of the node that lies behind what it has issued.
pub record Ahead (n : Node) (id : ℕ) : Type 0 where
  pub now : ℕ
  pub step : ℕ
  pub era : InEra now
  pub fits : step < 4096
  pub id_of : id ≡ make_id now n.node_id step
  pub later : stamp n < now * 4096 + step

Ahead-trans :
    {n n' : Node} {id : ℕ} → stamp n < stamp n' → n'.node_id ≡ n.node_id → Ahead n' id → Ahead n id
Ahead-trans {n} {n'} {id} h e a = record {
  now = a.now;
  step = a.step;
  era = a.era;
  fits = a.fits;
  id_of = ground (arith, a.id_of, e);
  later = omega (arith, a.later);
}

Ahead-lt :
    {n : Node} (id : ℕ) {id' : ℕ}
    → IsValid n
    → InEra n.timestamp
    → id ≡ make_id n.timestamp n.node_id n.step
    → Ahead n id'
    → id < id'
Ahead-lt {n} id v t e a = omega (
  arith,
  make_id-sum n.timestamp n.node_id n.step t v.node_fits v.step_fits,
  make_id-sum a.now n.node_id a.step a.era v.node_fits a.fits,
  a.id_of,
  a.later,
)

Trace-Ahead :
    {n : Node} {ids : List ℕ} → IsValid n → Trace n ids → All (Ahead n) ids × Increasing ids
Trace-Ahead v (done n) = (tt, tt)
Trace-Ahead {n} v (issue {n' = n'} {ids = ids} id clock rest s e t calls) =
    let a = generate-Advances n clock v s e in
    let (ahead, inc) = Trace-Ahead a.valid calls in
    (
      (first n n' id v t a, All-map ids (λ x. Ahead-trans a.later a.same_node) ahead),
      (All-map ids (λ x. Ahead-lt id a.valid t a.id_of) ahead, inc),
    )
  where
    first : (n n' : Node) (id : ℕ) → IsValid n → InEra n'.timestamp → Advances n id n' → Ahead n id
    first n n' id v t a = record {
      now = n'.timestamp;
      step = n'.step;
      era = t;
      fits = a.valid.step_fits;
      id_of = ground (arith, a.id_of, a.same_node);
      later = a.later;
    }
Trace-Ahead {n} v (fail {n' = n'} {ids = ids} now clock rest e calls) =
    let same = (severe_unchanged n n' now clock rest e).0 in
    subst (λ m. All (Ahead m) ids × Increasing ids) same
      (Trace-Ahead (subst IsValid (sym same) v) calls)

-- However many calls are made on a node, the identifiers that they issue are strictly increasing,
-- so that none is issued twice: provided that after each sleep the clock has caught up, and that the
-- clock stays within the 41 bits of the time field.
pub Trace-Increasing : {n : Node} {ids : List ℕ} → IsValid n → Trace n ids → Increasing ids
Trace-Increasing v calls = (Trace-Ahead v calls).1

-- Identifiers of nodes with different numbers differ.
pub Trace_disjoint :
    {m n : Node} {ids ids' : List ℕ} (id id' : ℕ)
    → IsValid m
    → IsValid n
    → m.node_id ≢ n.node_id
    → Trace m (id ∷ ids)
    → Trace n (id' ∷ ids')
    → id ≢ id'
Trace_disjoint {m} {n} id id' v w h calls calls' e =
    let a = (Trace-Ahead v calls).0.0 in
    let b = (Trace-Ahead w calls').0.0 in
    h (
      omega (
        arith,
        a.id_of,
        b.id_of,
        (make_id_fields a.now m.node_id a.step a.era v.node_fits a.fits).2,
        (make_id_fields b.now n.node_id b.step b.era w.node_fits b.fits).2,
        e,
      ))
