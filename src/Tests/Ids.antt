-- ===== src/Tests/Ids.antt =====
-- The generator of identifiers on concrete clocks.
use shortlink_system.Base.{
  ℕ, ◌+◌, ◌-◌, ◌*◌, ◌/◌, ◌%◌, ◌^◌, ◌<◌, ◌≡◌, ◌≢◌, ◌↔◌, refl, some, Text, bytes, [], ◌∷◌, true,
  arith,
}
use shortlink_system.Snowflake.{
  Node, Address, fetch_worker_id_by_ip, make_id, issued, severe, waiting, generate, epoch,
}
use shortlink_system.Snowflake.Fields.{InEra, make_id_fields}
use shortlink_system.Snowflake.Order.{IsValid}
use shortlink_system.Snowflake.Clocks.{generate-severe_iff, generate-ne-waiting, generate_repeats}
use shortlink_system.Snowflake.Runs.{Trace, Increasing, Trace-Increasing, Trace_disjoint}

-- A second and some milliseconds after the epoch.
abbrev start : ℕ
start = 1_767_225_601_000

abbrev fresh : Node
fresh = record { timestamp = 0; node_id = 5; step = 0 }

abbrev used : Node
used = record { timestamp = start; node_id = 5; step = 0 }

abbrev spent : Node
spent = record { timestamp = start; node_id = 5; step = 4095 }

first_call : generate fresh (start ∷ []) ≡ issued (1000 * 2 ^ 22 + 5 * 2 ^ 12) used []
unfolding generate make_id
first_call = refl

second_call :
    generate used (start ∷ [])
    ≡ issued (1000 * 2 ^ 22 + 5 * 2 ^ 12 + 1) (record used { step = 1 }) []
unfolding generate make_id
second_call = refl

rollover :
    generate spent (start ∷ start ∷ (start + 1) ∷ [])
    ≡ issued (1001 * 2 ^ 22 + 5 * 2 ^ 12) (record used { timestamp = start + 1 }) []
unfolding generate make_id
rollover = refl

used-IsValid : IsValid used
used-IsValid = record { node_fits = omega arith; step_fits = omega arith }

era : InEra start
era = record { started = omega arith; ends = omega arith }

make_id_fields_example :
    (make_id start 5 9 < 2 ^ 63)
    × (make_id start 5 9 / 2 ^ 22 ≡ start - epoch)
    × (make_id start 5 9 / 2 ^ 12 % 2 ^ 10 ≡ 5)
    × (make_id start 5 9 % 2 ^ 12 ≡ 9)
make_id_fields_example = make_id_fields start 5 9 era (omega arith) (omega arith)

generate-severe_iff_example :
    (generate used ((start - 6) ∷ start ∷ []) ≡ severe used (start ∷ []))
    ↔ ((used ≡ used) × (start ∷ [] ≡ start ∷ []) × (start - 6 + 5 < start))
generate-severe_iff_example = generate-severe_iff used used (start - 6) (start ∷ []) (start ∷ [])

generate-ne-waiting_example :
    generate spent (start ∷ start ∷ start ∷ (start + 1) ∷ []) ≢ waiting spent
generate-ne-waiting_example =
    generate-ne-waiting spent spent start start (start + 1) (start ∷ []) [] (omega arith)

generate_repeats_example :
    (id : ℕ) × (generate fresh ((start - 1) ∷ [])
      ≡ issued id (record fresh { timestamp = start - 1; step = 0 }) [])
    × (generate used ((start - 2) ∷ (start - 1) ∷ [])
        ≡ issued id (record used { timestamp = start - 1; step = 0 }) [])
generate_repeats_example =
    generate_repeats fresh used (start - 2) (start - 1) [] [] refl (omega arith) (omega arith)
      (omega arith) (omega arith)

two_calls : Trace fresh ((1000 * 2 ^ 22 + 5 * 2 ^ 12) ∷ (1000 * 2 ^ 22 + 5 * 2 ^ 12 + 1) ∷ [])
two_calls =
    Trace.issue _ (start ∷ []) [] tt first_call era
      (Trace.issue _ (start ∷ []) [] tt second_call era (Trace.done _))

fresh-IsValid : IsValid fresh
fresh-IsValid = record { node_fits = omega arith; step_fits = omega arith }

Trace-Increasing_example :
    Increasing ((1000 * 2 ^ 22 + 5 * 2 ^ 12) ∷ (1000 * 2 ^ 22 + 5 * 2 ^ 12 + 1) ∷ [])
Trace-Increasing_example = Trace-Increasing fresh-IsValid two_calls

abbrev other : Node
other = record { timestamp = 0; node_id = 6; step = 0 }

other_call :
    generate other (start ∷ [])
    ≡ issued (1000 * 2 ^ 22 + 6 * 2 ^ 12) (record used { node_id = 6 }) []
unfolding generate make_id
other_call = refl

other_calls : Trace other ((1000 * 2 ^ 22 + 6 * 2 ^ 12) ∷ [])
other_calls = Trace.issue _ (start ∷ []) [] tt other_call era (Trace.done _)

Trace_disjoint_example : ◌≢◌ {A = ℕ} (1000 * 2 ^ 22 + 5 * 2 ^ 12) (1000 * 2 ^ 22 + 6 * 2 ^ 12)
Trace_disjoint_example =
    Trace_disjoint (1000 * 2 ^ 22 + 5 * 2 ^ 12) (1000 * 2 ^ 22 + 6 * 2 ^ 12) fresh-IsValid
      (record { node_fits = omega arith; step_fits = omega arith }) (omega arith) two_calls
      other_calls

abbrev checksum : Text → ℕ
checksum s = 4_000_000_000

abbrev loopback : Address
loopback = record { is_ip_net = true; is_loopback = true; is_ipv4 = true; ip = bytes "127.0.0.1" }

fallback : fetch_worker_id_by_ip checksum [] (some (loopback ∷ [])) ≡ 1
unfolding fetch_worker_id_by_ip
fallback = refl
