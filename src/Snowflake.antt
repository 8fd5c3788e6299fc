-- ===== src/Snowflake.antt =====
-- pkg/snowflake/snowflake.go: the generator of identifiers.
-- An int64 time in milliseconds is a ℕ (clocks after 1970). An identifier is the bit pattern of its
-- int64, below 2 ^ 64. The clock is the list of the readings that `time.Now().UnixMilli()` will
-- return; the mutex makes one call of `Generate` follow another.
pub mod Fields
pub mod Order
pub mod Runs
pub mod Clocks
pub mod Workers
pub mod Bounds
use Prim.Native.Nat.{bit_and, bit_or}
use shortlink_system.Base.{
  ℕ, zero, suc, ◌+◌, ◌-◌, ◌*◌, ◌%◌, ◌^◌, Option, none, some, List, [], ◌∷◌, Text, text_eq, Bool,
  true, false, not, ◌&&◌, ltb, leb, ◌==◌, if◌then◌else◌,
}

abbrev pub epoch : ℕ
epoch = 1_767_225_600_000

abbrev pub node_bits : ℕ
node_bits = 10

abbrev pub step_bits : ℕ
step_bits = 12

abbrev pub node_max : ℕ
node_max = 2 ^ node_bits - 1

abbrev pub step_max : ℕ
step_max = 2 ^ step_bits - 1

abbrev pub time_shift : ℕ
time_shift = node_bits + step_bits

abbrev pub node_shift : ℕ
node_shift = step_bits

abbrev pub max_backward_ms : ℕ
max_backward_ms = 5

pub record Node : Type 0 where
  pub timestamp : ℕ
  pub node_id : ℕ
  pub step : ℕ

-- An int64 that may be negative: `below n` is -(n + 1).
pub data NodeNumber : Type 0 where
  natural : ℕ → NodeNumber
  below : ℕ → NodeNumber

-- `none` is the error "node ID out of range".
unfoldable pub new_node : NodeNumber → Option Node
new_node (below n) = none
new_node (natural id) =
    if ltb node_max id then none else some (record { timestamp = 0; node_id = id; step = 0 })

-- An address of the host: whether it is an `*net.IPNet`, a loopback, an IPv4, and its text.
pub record Address : Type 0 where
  pub is_ip_net : Bool
  pub is_loopback : Bool
  pub is_ipv4 : Bool
  pub ip : Text

-- The loop over the addresses, with its `break`; the text is empty if none fits.
unfoldable pub first_address : List Address → Text
first_address [] = []
first_address (a ∷ addrs) =
    let rest = first_address addrs in
    if a.is_ip_net && not a.is_loopback && a.is_ipv4 then a.ip else rest

-- `net.InterfaceAddrs` may fail: `none`.
abbrev local_ip : Option (List Address) → Text
local_ip none = []
local_ip (some addrs) = first_address addrs

-- `checksum` stands for `crc32.ChecksumIEEE`, and `pod_ip` is the variable POD_IP, empty if unset.
unfoldable pub fetch_worker_id_by_ip : (Text → ℕ) → Text → Option (List Address) → ℕ
unfolding first_address text_eq
fetch_worker_id_by_ip checksum pod_ip addrs =
    let ip = if text_eq pod_ip [] then local_ip addrs else pod_ip in
    if text_eq ip [] then 1 else checksum ip % (node_max + 1)

-- `((now - epoch) << timeShift) | (nodeID << nodeShift) | step`
unfoldable pub make_id : ℕ → ℕ → ℕ → ℕ
make_id now node_id step =
    bit_or
      (bit_or ((now + 2 ^ 64 - epoch) % 2 ^ 64 * 2 ^ time_shift % 2 ^ 64)
        (node_id * 2 ^ node_shift))
      step

-- What a call does with the readings that come: it returns an identifier or the error "clock moved
-- backwards severely", with the readings that it did not take, or it still waits for a reading.
pub data Generated : Type 0 where
  issued : ℕ → Node → List ℕ → Generated
  severe : Node → List ℕ → Generated
  waiting : Node → Generated

-- `for now <= n.timestamp { now = … }`
unfoldable pub spin : ℕ → ℕ → List ℕ → Option (ℕ × List ℕ)
spin timestamp now [] = if leb now timestamp then none else some (now, [])
spin timestamp now (next ∷ clock) =
    let later = spin timestamp next clock in
    if leb now timestamp then later else some (now, next ∷ clock)

-- The end of `Generate`: the node takes the reading, and the identifier is put together.
unfoldable pub issue : Node → ℕ → List ℕ → Generated
issue n now clock = issued (make_id now n.node_id n.step) (record n { timestamp = now }) clock

-- The sequence number, once `now` is settled.
unfoldable pub tick : Node → ℕ → List ℕ → Generated
unfolding spin issue
tick n now clock =
    if now == n.timestamp
    then (let n' = record n { step = bit_and (n.step + 1) step_max } in
        if n'.step == 0
        then (elim (spin n.timestamp now clock) [
          | none ↦ waiting n'
          | some (next, rest) ↦ issue n' next rest
        ])
        else issue n' now clock)
    else issue (record n { step = 0 }) now clock

-- The reading after the sleep.
unfoldable pub after_sleep : Node → List ℕ → Generated
unfolding tick
after_sleep n [] = waiting n
after_sleep n (now ∷ clock) = tick n now clock

unfoldable pub generate : Node → List ℕ → Generated
unfolding after_sleep
generate n [] = waiting n
generate n (now ∷ clock) =
    if ltb now n.timestamp
    then (if leb (n.timestamp - now) max_backward_ms then after_sleep n clock else severe n clock)
    else tick n now clock
