-- ===== src/Lidar/Receiver/Stopped.antt =====
-- The receiver's start and stop over any history of calls.
use hypertron_sw01_ros2_brid.Prelude.{
  ℕ, ◌+◌, ◌≤◌, ◌≡◌, refl, Bool, true, false, List, [], ◌∷◌, arith, if◌then◌else◌,
}
use hypertron_sw01_ros2_brid.Lidar.Receiver.{
  Control, constructed, start, stop, is_running, ends, wait,
}

-- A call, and for `stop` whether it comes from the receive thread.
pub data ControlCall : Type 0 where
  starts : ControlCall
  stops : Bool → ControlCall

-- The flags, and how many threads were created and joined so far.
pub record Life : Type 0 where
  pub control : Control
  pub created : ℕ
  pub joined : ℕ

abbrev pub count : Bool → ℕ
count b = if b then 1 else 0

unfoldable pub call : ControlCall → Life → Life
call starts l = record {
  control = (start l.control).0;
  created = l.created + count (start l.control).1;
  joined = l.joined;
}
call (stops on_receive_thread) l = record {
  control = (stop on_receive_thread l.control).0;
  created = l.created;
  joined = l.joined + count (stop on_receive_thread l.control).1;
}

unfoldable pub calls : List ControlCall → Life → Life
calls [] l = l
calls (c ∷ cs) l = calls cs (call c l)

abbrev pub born : Life
born = record { control = constructed; created = 0; joined = 0 }

-- A thread is created at most once, and is joinable until it is joined.
IsCounted : Life → Type 0
IsCounted l =
    (l.created ≡ count l.control.start_called) × (l.joined + count l.control.joinable ≡ l.created)

call-IsCounted : (c : ControlCall) (l : Life) → IsCounted l → IsCounted (call c l)
unfolding call start stop IsCounted
call-IsCounted starts l h = ground arith
call-IsCounted (stops b) l h = ground arith

calls-IsCounted : (cs : List ControlCall) (l : Life) → IsCounted l → IsCounted (calls cs l)
unfolding calls
calls-IsCounted [] l h = h
calls-IsCounted (c ∷ cs) l h = calls-IsCounted cs (call c l) (call-IsCounted c l h)

IsStopped : Life → Type 0
IsStopped l = (l.control.stop_requested ≡ true) × (l.control.running ≡ false)

call-IsStopped :
    (c : ControlCall) (l : Life)
    → IsStopped l
    → IsStopped (call c l) × ((call c l).created ≡ l.created)
unfolding call start stop IsStopped
call-IsStopped starts l h = ground arith
call-IsStopped (stops b) l h = ground arith

calls-IsStopped :
    (cs : List ControlCall) (l : Life)
    → IsStopped l
    → IsStopped (calls cs l) × ((calls cs l).created ≡ l.created)
unfolding calls
calls-IsStopped [] l h = (h, refl)
calls-IsStopped (c ∷ cs) l h =
    let (h', e) = call-IsStopped c l h in
    let (h'', e') = calls-IsStopped cs (call c l) h' in (h'', ground arith)

stop-IsStopped : (b : Bool) (l : Life) → IsStopped (call (stops b) l)
unfolding call stop IsStopped
stop-IsStopped b l = ground arith

stop-created : (b : Bool) (l : Life) → (call (stops b) l).created ≡ l.created
unfolding call
stop-created b l = refl

-- Over any history of starts and stops of a new receiver, from whichever threads: at most one thread
-- is created, and no more are joined than were created. After a stop, whatever is called then, no
-- thread is created any more, the receiver is not running, and its loop ends before its next pass.
pub stop-ends :
    (before after : List ControlCall) (on_receive_thread : Bool)
    → let stopped = call (stops on_receive_thread) (calls before born) in
      let l = calls after stopped in
      (l.created ≤ 1)
      × (l.joined ≤ l.created)
      × (l.created ≡ (calls before born).created)
      × (is_running l.control ≡ false)
      × (wait l.control ≡ ends)
unfolding is_running wait IsStopped IsCounted
stop-ends before after b =
    let stopped = call (stops b) (calls before born) in
    let counted =
      calls-IsCounted after stopped
        (call-IsCounted (stops b) (calls before born) (calls-IsCounted before born (refl, refl))) in
    let (halted, same) = calls-IsStopped after stopped (stop-IsStopped b (calls before born)) in
    ground (arith, stop-created b (calls before born))
