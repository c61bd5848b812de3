-- ===== src/Kernel.antt =====
-- kernel/time_kernel.py: the logical clock that stamps the events of a session.
--
-- The dictionary of the last stamp of each event is a list of pairs, the newest first.
pub mod Sequence
use stocky_cognitive_runtime.Prelude.{
  ℕ, ◌+◌, String, Bool, true, false, ◌&&◌, Option, none, some, List, [], ◌∷◌, ◌++◌, keep, ltb, leb,
  str_eq, if◌then◌else◌,
}

pub record TimeStamp : Type 0 where
  pub session_id : String
  pub sequence_no : ℕ
  pub event_id : String
  pub wall_time : ℕ
  pub parent_event_id : Option String

abbrev pub happens_before : TimeStamp → TimeStamp → Bool
happens_before a b =
    if str_eq a.session_id b.session_id
    then ltb a.sequence_no b.sequence_no
    else ltb a.wall_time b.wall_time

pub record TimeKernel : Type 0 where
  pub session_id : String
  pub counter : ℕ
  pub timeline : List TimeStamp
  pub event_map : List (String × TimeStamp)

abbrev pub new_kernel : String → TimeKernel
new_kernel session_id = record {
  session_id = session_id;
  counter = 0;
  timeline = [];
  event_map = [];
}

abbrev pub make_stamp : TimeKernel → String → Option String → ℕ → TimeStamp
make_stamp k event_id parent now = record {
  session_id = k.session_id;
  sequence_no = k.counter + 1;
  event_id = event_id;
  wall_time = now;
  parent_event_id = parent;
}

-- `stamp`, with the reading of the clock.
unfoldable pub stamp : TimeKernel → String → Option String → ℕ → TimeKernel
stamp k event_id parent now = record k {
  counter = k.counter + 1;
  timeline = k.timeline ++ make_stamp k event_id parent now ∷ [];
  event_map = (event_id, make_stamp k event_id parent now) ∷ k.event_map;
}

unfoldable pub look_up : String → List (String × TimeStamp) → Option TimeStamp
look_up event_id [] = none
look_up event_id ((id, ts) ∷ rest) =
    let found = look_up event_id rest in if str_eq id event_id then some ts else found

abbrev pub get_stamp : TimeKernel → String → Option TimeStamp
get_stamp k event_id = look_up event_id k.event_map

abbrev pub number : Option TimeStamp → Option ℕ
number none = none
number (some ts) = some ts.sequence_no

abbrev pub sequence_of : TimeKernel → String → Option ℕ
sequence_of k event_id = number (get_stamp k event_id)

abbrev pub order : Option TimeStamp → Option TimeStamp → Option Bool
order none b = none
order (some a) none = none
order (some a) (some b) = some (happens_before b a)

abbrev pub is_after : TimeKernel → String → String → Option Bool
is_after k a b = order (get_stamp k a) (get_stamp k b)

abbrev pub timeline_since : TimeKernel → ℕ → List TimeStamp
timeline_since k since = keep (λ ts. ltb since ts.sequence_no) k.timeline

abbrev pub replay_window : TimeKernel → ℕ → ℕ → List TimeStamp
replay_window k first last =
    keep (λ ts. leb first ts.sequence_no && leb ts.sequence_no last) k.timeline

abbrev pub reset : TimeKernel → TimeKernel
reset k = record k { counter = 0; timeline = []; event_map = [] }

pub data Tick : Type 0 where
  stamps : String → Option String → ℕ → Tick
  resets : Tick

unfoldable pub tick : TimeKernel → Tick → TimeKernel
tick k (stamps event_id parent now) = stamp k event_id parent now
tick k resets = reset k

unfoldable pub ticks : TimeKernel → List Tick → TimeKernel
ticks k [] = k
ticks k (t ∷ ts) = ticks (tick k t) ts
