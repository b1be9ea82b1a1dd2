-- ===== src/Lidar/Source.antt =====
-- `UdpLidarDatagramSource` of src/lidar_stream.cpp. What the system's calls answer is an argument: whether
-- the socket is made, the address taken and bound; what `poll` says; and what `recvfrom` gives, the
-- bytes and the sender's address as text, or none if it fails.
use hypertron_sw01_ros2_brid.Prelude.{
  ℕ, ◌≡◌, Bool, true, false, ◌&&◌, not, ◌++◌, Option, none, some, arith, if◌then◌else◌,
}
use hypertron_sw01_ros2_brid.Prelude.Text.{Bytes, bytes_eq, is_empty}
use hypertron_sw01_ros2_brid.Lidar.Types.{bump}

pub record SourceStats : Type 0 where
  pub received : ℕ
  pub dropped_source : ℕ
  pub timeouts : ℕ
  pub errors : ℕ

pub record UdpSource : Type 0 where
  pub is_open : Bool
  pub expected_source_ip : Bytes
  pub stats : SourceStats

-- The socket stays open only if every step succeeds.
unfoldable construct : Bool → Bool → Bool → Bytes → UdpSource
construct made taken bound expected = record {
  is_open = made && (taken && bound);
  expected_source_ip = expected;
  stats = record { received = 0; dropped_source = 0; timeouts = 0; errors = 0 };
}

unfoldable close : UdpSource → UdpSource
close s = record s { is_open = false }

pub data Polled : Type 0 where
  expired broken readable : Polled

abbrev count_error : UdpSource → UdpSource
count_error s = record s { stats = record s.stats { errors = bump s.stats.errors } }

abbrev count_timeout : UdpSource → UdpSource
count_timeout s = record s { stats = record s.stats { timeouts = bump s.stats.timeouts } }

abbrev count_dropped : UdpSource → UdpSource
count_dropped s = record s {
  stats = record s.stats { dropped_source = bump s.stats.dropped_source };
}

abbrev count_received : UdpSource → UdpSource
count_received s = record s { stats = record s.stats { received = bump s.stats.received } }

-- What `recvfrom` gave, once there is something to read.
unfoldable take : Option (Bytes × Bytes) → Bytes → UdpSource → UdpSource × Bool × Bytes
take none out s = (count_error s, false, out)
take (some (bytes, sender)) out s =
    if not (is_empty s.expected_source_ip) && not (bytes_eq s.expected_source_ip sender)
    then (count_dropped s, false, out)
    else (count_received s, true, out ++ bytes)

-- Whether there is a datagram, and the buffer with it behind what it held.
unfoldable receive : Polled → Option (Bytes × Bytes) → Bytes → UdpSource → UdpSource × Bool × Bytes
receive polled arrived out s = if not s.is_open then (count_error s, false, out) else elim polled [
  | expired ↦ (count_timeout s, false, out)
  | broken ↦ (count_error s, false, out)
  | readable ↦ take arrived out s
]

-- A call that gives no datagram leaves the buffer as it was.
receive_nothing :
    (polled : Polled) (arrived : Option (Bytes × Bytes)) (out : Bytes) (s : UdpSource)
    → (receive polled arrived out s).1 ≡ false
    → (receive polled arrived out s).2 ≡ out
unfolding receive take
receive_nothing expired arrived out s h = ground arith
receive_nothing broken arrived out s h = ground arith
receive_nothing readable none out s h = ground arith
receive_nothing readable (some (bytes, sender)) out s h = ground arith

-- With an expected sender, a datagram that is given comes from it, and is counted.
receive_from_expected :
    (polled : Polled) (bytes sender out : Bytes) (s : UdpSource)
    → is_empty s.expected_source_ip ≡ false
    → (receive polled (some (bytes, sender)) out s).1 ≡ true
    → (bytes_eq s.expected_source_ip sender ≡ true)
      × ((receive polled (some (bytes, sender)) out s).2 ≡ out ++ bytes)
      × ((receive polled (some (bytes, sender)) out s).0.stats.received ≡ bump s.stats.received)
unfolding receive take
receive_from_expected expired bytes sender out s e h = ground arith
receive_from_expected broken bytes sender out s e h = ground arith
receive_from_expected readable bytes sender out s e h = ground arith
