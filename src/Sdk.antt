-- ===== src/Sdk.antt =====
-- The lifecycle of `DirectAstrallSdk` of src/direct_astrall_sdk.cpp: the state that its gate mutex guards,
-- and one function for each critical section that changes it. Threads interleave at these sections.
-- Who holds the lifecycle mutex, and how far the holder of the teardown mutex is, are fields; a section
-- whose mutex is taken, or whose guard refuses it, changes nothing. A callback is a number. Whether the
-- vendor's library is initialized is kept beside (`vendor_live`); its functions are taken to be bound,
-- except that init may be unbound, and its return codes are arguments.
pub mod Lifecycle
pub mod Stale
use hypertron_sw01_ros2_brid.Prelude.{
  ℕ, ◌+◌, ◌-◌, Bool, true, false, ◌&&◌, ◌||◌, not, List, [], ◌∷◌, Option, none, some, ltb, ◌==◌,
  if◌then◌else◌,
}

pub data State : Type 0 where
  uninitialized initializing initialized shutting_down : State

pub data Topic : Type 0 where
  imu sport lidar : Topic

-- What the holder of the lifecycle mutex does. A subscription keeps the callback from before.
pub data Holder : Type 0 where
  free in_init in_call in_deinit : Holder
  in_subscribe : Topic → Option ℕ → Holder

-- Where the holder of the teardown mutex is: nowhere, about to close the gate, waiting for the
-- callbacks in flight, or about to publish the end.
pub data Teardown : Type 0 where
  idle entered draining leaving : Teardown

pub record Adapter : Type 0 where
  pub state : State
  pub callbacks : Option ℕ
  pub imu_callback : Option ℕ
  pub sport_callback : Option ℕ
  pub lidar_callback : Option ℕ
  pub status_linked : Bool
  pub status_authority : Bool
  pub latest_sport : ℕ
  pub in_flight : ℕ
  pub deferred_teardown : Bool
  pub lifecycle : Holder
  pub teardown : Teardown
  pub vendor_live : Bool

abbrev pub constructed : Adapter
constructed = record {
  state = uninitialized;
  callbacks = none;
  imu_callback = none;
  sport_callback = none;
  lidar_callback = none;
  status_linked = false;
  status_authority = false;
  latest_sport = 0;
  in_flight = 0;
  deferred_teardown = false;
  lifecycle = free;
  teardown = idle;
  vendor_live = false;
}

abbrev pub accepts : State → Bool
accepts uninitialized = false
accepts initializing = true
accepts initialized = true
accepts shutting_down = false

abbrev pub is_initialized : State → Bool
is_initialized initialized = true
is_initialized uninitialized = false
is_initialized initializing = false
is_initialized shutting_down = false

abbrev pub is_uninitialized : State → Bool
is_uninitialized uninitialized = true
is_uninitialized initializing = false
is_uninitialized initialized = false
is_uninitialized shutting_down = false

abbrev pub is_shutting_down : State → Bool
is_shutting_down shutting_down = true
is_shutting_down uninitialized = false
is_shutting_down initializing = false
is_shutting_down initialized = false

abbrev pub is_free : Holder → Bool
is_free free = true
is_free in_init = false
is_free in_call = false
is_free in_deinit = false
is_free (in_subscribe topic before) = false

abbrev pub is_in_deinit : Holder → Bool
is_in_deinit in_deinit = true
is_in_deinit free = false
is_in_deinit in_init = false
is_in_deinit in_call = false
is_in_deinit (in_subscribe topic before) = false

-- The first section of `deliver_status`, and of the deliveries of telemetry.
unfoldable pub deliver_status : Bool → Bool → Adapter → Adapter
deliver_status linked authority a = if not (accepts a.state) then a else record a {
  status_linked = linked;
  status_authority = authority;
  in_flight = a.in_flight + 1;
}

unfoldable pub deliver_imu : Adapter → Adapter
deliver_imu a = if not (accepts a.state) then a else record a { in_flight = a.in_flight + 1 }

unfoldable pub deliver_sport : ℕ → Adapter → Adapter
deliver_sport sample a =
    if not (accepts a.state)
    then a
    else record a { latest_sport = sample; in_flight = a.in_flight + 1 }

unfoldable pub deliver_lidar_discard : Adapter → Adapter
deliver_lidar_discard a =
    if not (accepts a.state) then a else record a { in_flight = a.in_flight + 1 }

-- The guard at the end of a delivery.
unfoldable pub finish_delivery : Adapter → Adapter
finish_delivery a = if a.in_flight == 0 then a else record a { in_flight = a.in_flight - 1 }

-- `deinit` in the callback context: inside a callback of this adapter, or below one of its vendor calls.
unfoldable pub defer_deinit : Adapter → Adapter
defer_deinit a =
    if a.in_flight == 0 && (is_free a.lifecycle || is_in_deinit a.lifecycle)
    then a
    else record a { deferred_teardown = true }

-- The end of a vendor entry point, where a deinit that a callback asked for takes over.
abbrev pub release : Adapter → Adapter → Adapter
release a kept =
    if a.deferred_teardown
    then record a { deferred_teardown = false; lifecycle = free }
    else record kept { lifecycle = free }

unfoldable pub begin_init : ℕ → Adapter → Adapter
begin_init callbacks a =
    if not (is_free a.lifecycle) || not (is_uninitialized a.state) then a else record a {
      callbacks = some callbacks;
      status_linked = false;
      status_authority = false;
      latest_sport = 0;
      state = initializing;
      lifecycle = in_init;
    }

pub data InitAnswer : Type 0 where
  unbound failed succeeded : InitAnswer

unfoldable pub finish_init_locked : InitAnswer → Adapter → Adapter
finish_init_locked unbound a = record a {
  state = uninitialized;
  callbacks = none;
  lifecycle = free;
}
finish_init_locked failed a = release a (record a {
  state = uninitialized;
  callbacks = none;
  status_linked = false;
  status_authority = false;
})
finish_init_locked succeeded a =
    let a' : Adapter = record a { vendor_live = true } in
    release a' (record a' { state = initialized })

unfoldable pub finish_init : InitAnswer → Adapter → Adapter
finish_init answer a = elim a.lifecycle [
  | in_init ↦ finish_init_locked answer a
  | free ↦ a
  | in_call ↦ a
  | in_deinit ↦ a
  | in_subscribe topic before ↦ a
]

-- `heartbeat`, `request_authority`, `move`, `set_mode`.
unfoldable pub begin_call : Adapter → Adapter
begin_call a =
    if not (is_free a.lifecycle) || not (is_initialized a.state)
    then a
    else record a { lifecycle = in_call }

unfoldable pub finish_call : Adapter → Adapter
finish_call a = elim a.lifecycle [
  | in_call ↦ release a a
  | free ↦ a
  | in_init ↦ a
  | in_deinit ↦ a
  | in_subscribe topic before ↦ a
]

abbrev pub callback_of : Topic → Adapter → Option ℕ
callback_of imu a = a.imu_callback
callback_of sport a = a.sport_callback
callback_of lidar a = a.lidar_callback

abbrev pub install : Topic → Option ℕ → Adapter → Adapter
install imu callback a = record a { imu_callback = callback }
install sport callback a = record a { sport_callback = callback }
install lidar callback a = record a { lidar_callback = callback }

unfoldable pub begin_subscribe : Topic → ℕ → Adapter → Adapter
begin_subscribe topic callback a =
    if not (is_free a.lifecycle) || not (is_initialized a.state)
    then a
    else record (install topic (some callback) a) {
      lifecycle = in_subscribe topic (callback_of topic a);
    }

-- A failure puts the callback from before back.
unfoldable pub finish_subscribe : Bool → Adapter → Adapter
finish_subscribe success a = elim a.lifecycle [
  | in_subscribe topic before ↦ release a (if success then a else install topic before a)
  | free ↦ a
  | in_init ↦ a
  | in_call ↦ a
  | in_deinit ↦ a
]

abbrev pub is_at_rest : Adapter → Bool
is_at_rest a = is_uninitialized a.state && (not a.deferred_teardown && a.in_flight == 0)

-- The section at the head of the loop of `ensure_uninitialized`, by a thread that takes or has the
-- teardown mutex.
unfoldable pub enter_teardown : Adapter → Adapter
enter_teardown a = elim a.teardown [
  | idle ↦ if is_at_rest a then a else record a { deferred_teardown = false; teardown = entered }
  | entered ↦ a
  | draining ↦ a
  | leaving ↦ a
]

-- The first section of `teardown_impl`, which then goes on to the vendor's deinit.
unfoldable pub close_gate_locked : Adapter → Adapter
close_gate_locked a =
    if not (is_uninitialized a.state)
    then record a {
      deferred_teardown = false;
      state = shutting_down;
      callbacks = none;
      imu_callback = none;
      sport_callback = none;
      lidar_callback = none;
      status_linked = false;
      status_authority = false;
      lifecycle = if is_shutting_down a.state then free else in_deinit;
      teardown = draining;
    }
    else if ltb 0 a.in_flight
    then record a { deferred_teardown = false; state = shutting_down; teardown = draining }
    else record a { deferred_teardown = false; teardown = leaving }

unfoldable pub close_gate : Adapter → Adapter
close_gate a = elim a.teardown [
  | entered ↦ if is_free a.lifecycle then close_gate_locked a else a
  | idle ↦ a
  | draining ↦ a
  | leaving ↦ a
]

-- The vendor's deinit returns, and the lifecycle mutex is released.
unfoldable pub finish_deinit : Adapter → Adapter
finish_deinit a =
    if is_in_deinit a.lifecycle then record a { lifecycle = free; vendor_live = false } else a

-- The wait is over.
unfoldable pub finish_wait : Adapter → Adapter
finish_wait a = elim a.teardown [
  | draining ↦
      if not (is_in_deinit a.lifecycle) && a.in_flight == 0
      then record a { teardown = leaving }
      else a
  | idle ↦ a
  | entered ↦ a
  | leaving ↦ a
]

-- The last section of `teardown_impl`.
unfoldable pub publish : Adapter → Adapter
publish a = elim a.teardown [
  | leaving ↦ record a { state = uninitialized; teardown = idle }
  | idle ↦ a
  | entered ↦ a
  | draining ↦ a
]

pub data Event : Type 0 where
  status_arrives : Bool → Bool → Event
  imu_arrives lidar_arrives delivery_ends deinit_deferred call_begins call_ends : Event
  sport_arrives : ℕ → Event
  init_begins : ℕ → Event
  init_ends : InitAnswer → Event
  subscribe_begins : Topic → ℕ → Event
  subscribe_ends : Bool → Event
  teardown_enters gate_closes deinit_ends wait_ends teardown_publishes : Event

unfoldable pub step : Event → Adapter → Adapter
step (status_arrives linked authority) a = deliver_status linked authority a
step imu_arrives a = deliver_imu a
step lidar_arrives a = deliver_lidar_discard a
step (sport_arrives sample) a = deliver_sport sample a
step delivery_ends a = finish_delivery a
step deinit_deferred a = defer_deinit a
step call_begins a = begin_call a
step call_ends a = finish_call a
step (init_begins callbacks) a = begin_init callbacks a
step (init_ends answer) a = finish_init answer a
step (subscribe_begins topic callback) a = begin_subscribe topic callback a
step (subscribe_ends success) a = finish_subscribe success a
step teardown_enters a = enter_teardown a
step gate_closes a = close_gate a
step deinit_ends a = finish_deinit a
step wait_ends a = finish_wait a
step teardown_publishes a = publish a

unfoldable pub run : List Event → Adapter → Adapter
run [] a = a
run (e ∷ es) a = run es (step e a)
