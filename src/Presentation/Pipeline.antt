-- ===== src/Presentation/Pipeline.antt =====
-- native/src/presentation/async_presentation_pipeline.cpp: three banks that take input to the
-- coordinator's thread, and two that take completed snapshots back. What the coordinator evaluates is
-- a parameter. Atomics are sequentially consistent here, and a place in an atomic index that holds -1
-- is none. This file has what the main thread does, one function for each atomic access and what it
-- does up to the next one.
pub mod Evaluation
pub mod Steps
pub mod Banks
pub mod Owners
pub mod Channel
pub mod Promises
use peraviz.Prelude.{
  ℕ, zero, suc, ◌+◌, min, Bool, true, false, not, ◌&&◌, ◌||◌, Option, none, some, List, [], ◌∷◌,
  ◌++◌, ltb, ◌==◌, if◌then◌else◌, ℤ, pos, negsuc, length, get_elem?, get_or, set, take, drop,
  increment64,
}

pub data Status : Type 0 where
  free writing queued reading : Status

-- The id of a universe, which is never negative, the length of its data, and the data.
pub record InputValue : Type 0 where
  pub id : ℕ
  pub size : ℕ
  pub sequence : ℕ
  pub received_us : ℕ
  pub data_bytes : List ℕ

-- `InputBank` and `OutputBank`: a status, and the rest.
pub record Bank (A : Type 0) : Type 0 where
  pub status : Status
  pub content : A

pub record Input : Type 0 where
  pub frames : List InputValue
  pub generation : ℕ
  pub submitted : ℕ

-- Where the main thread stands: between calls, in `flush_input` before the access to the status of a
-- bank, with a bank that it has claimed, or filled, or taken out of the queue, in `try_acquire` with
-- a bank, or in `stop`.
pub data Main : Type 0 where
  idle joining : Main
  trying claimed filled replacing acquiring : ℕ → Main

-- Where the coordinator stands: before it takes an input, with one taken or being read, before the
-- access to the status of an output bank, with one that it writes or has completed, or at its end.
pub data Coordinator : Type 0 where
  looping halted : Coordinator
  took reading_bank choosing evaluating publishing : ℕ → Coordinator

-- The members of the pipeline, the local variables of the coordinator from `initial_batch` on, and
-- the banks whose snapshots the caller of `try_acquire` holds.
pub record System (C S : Type 0) : Type 0 where
  pub core : C
  pub inputs : List (Bank Input)
  pub outputs : List (Bank S)
  pub latest : List InputValue
  pub consumed_sequences : List ℕ
  pub queued_input : Option ℕ
  pub ready_output : Option ℕ
  pub stopping : Bool
  pub failed : Bool
  pub trace : Bool
  pub retired : Bool
  pub producer_sequence : ℕ
  pub producer_generation : ℕ
  pub producer_dirty : Bool
  pub main : Main
  pub coordinator : Coordinator
  pub initial_batch : Bool
  pub generation : ℕ
  pub submitted : ℕ
  pub leased : List ℕ

abbrev pub empty_value : InputValue
empty_value = record { id = 0; size = 0; sequence = 0; received_us = 0; data_bytes = [] }

abbrev pub no_input : Input
no_input = record { frames = []; generation = 0; submitted = 0 }

unfoldable pub is_free : Status → Bool
is_free free = true
is_free writing = false
is_free queued = false
is_free reading = false

-- `input_indices`: the first frame of an id.
unfoldable pub index_of : List InputValue → ℕ → Option ℕ
index_of [] id = none
index_of (frame ∷ frames) id =
    let rest = index_of frames id in
    if frame.id == id then some 0 else elim rest [ none ↦ none | some i ↦ some (suc i) ]

unfoldable pub give_back : ℕ → List ℕ → List ℕ
give_back i [] = []
give_back i (j ∷ leased) = if j == i then leased else j ∷ give_back i leased

module _ {A : Type 0} where
  unfoldable pub status_of : List (Bank A) → ℕ → Status
  status_of [] i = free
  status_of (bank ∷ banks) zero = bank.status
  status_of (bank ∷ banks) (suc i) = status_of banks i

  unfoldable pub set_status : List (Bank A) → ℕ → Status → List (Bank A)
  set_status [] i status = []
  set_status (bank ∷ banks) zero status = record bank { status = status } ∷ banks
  set_status (bank ∷ banks) (suc i) status = bank ∷ set_status banks i status

  -- The content of a bank, or another value for an index outside.
  unfoldable pub content_of : List (Bank A) → ℕ → A → A
  content_of [] i d = d
  content_of (bank ∷ banks) zero d = bank.content
  content_of (bank ∷ banks) (suc i) d = content_of banks i d

module _ {C S : Type 0} where
  unfoldable pub active : System C S → Bool
  active s = not s.stopping && not s.failed

  -- `submit`, once the universe is found. The bytes of a frame behind its new length stay.
  unfoldable pub write_frame : System C S → ℕ → List ℕ → ℕ → ℕ → InputValue → System C S
  write_frame s i bytes size received_us frame = record s {
    latest = set s.latest i (record frame {
      size = min size 512;
      sequence = increment64 s.producer_sequence;
      received_us = received_us;
      data_bytes = take (min size 512) bytes ++ drop (min size 512) frame.data_bytes;
    });
    producer_sequence = increment64 s.producer_sequence;
    producer_dirty = true;
  }

  abbrev pub write_found : System C S → Option ℕ → List ℕ → ℕ → ℕ → Bool × System C S
  write_found s none bytes size received_us = (false, s)
  write_found s (some i) bytes size received_us =
      (true, write_frame s i bytes size received_us (get_or s.latest i empty_value))

  -- `submit`, whose data are none for a null pointer.
  unfoldable pub submit : System C S → ℕ → Option (List ℕ) → ℤ → ℕ → Bool × System C S
  submit s universe none size received_us = (false, s)
  submit s universe (some bytes) (negsuc n) received_us = (false, s)
  submit s universe (some bytes) (pos size) received_us =
      if not (active s) || size == 0
      then (false, s)
      else write_found s (index_of s.latest universe) bytes size received_us

  -- `flush_input`, its first line.
  unfoldable pub begin_flush : System C S → System C S
  begin_flush s = if s.producer_dirty && active s then record s { main = trying 0 } else s

  -- The exchange of the status of a bank for `Writing`, if it is `Free`.
  unfoldable pub try_input : System C S → ℕ → System C S
  try_input s i =
      if is_free (status_of s.inputs i)
      then record s { inputs = set_status s.inputs i writing; main = claimed i }
      else record s { main = trying (suc i) }

  -- The copy, over a vector of the same size, and the store of `Queued`.
  abbrev pub filled_bank : System C S → ℕ → Bank Input
  filled_bank s now_ns = record {
    status = queued;
    content = record {
      frames = s.latest;
      generation = increment64 s.producer_generation;
      submitted = if s.trace then now_ns else 0;
    };
  }

  unfoldable pub fill_input : System C S → ℕ → ℕ → System C S
  fill_input s i now_ns = record s {
    inputs = set s.inputs i (filled_bank s now_ns);
    producer_generation = increment64 s.producer_generation;
    main = filled i;
  }

  abbrev pub replaced : System C S → ℕ → Option ℕ → System C S
  replaced s i none = record s { queued_input = some i; producer_dirty = false; main = idle }
  replaced s i (some old) = record s { queued_input = some i; main = replacing old }

  -- The exchange of the queued index.
  unfoldable pub enqueue_input : System C S → ℕ → System C S
  enqueue_input s i = replaced s i s.queued_input

  unfoldable pub free_replaced : System C S → ℕ → System C S
  free_replaced s old = record s {
    inputs = set_status s.inputs old free;
    producer_dirty = false;
    main = idle;
  }

  abbrev pub acquired : System C S → Option ℕ → System C S
  acquired s none = record s { ready_output = none }
  acquired s (some i) = record s { ready_output = none; main = acquiring i }

  -- `try_acquire`, with its exchange of the ready index.
  unfoldable pub begin_acquire : System C S → System C S
  begin_acquire s = if active s then acquired s s.ready_output else s

  unfoldable pub end_acquire : System C S → ℕ → System C S
  end_acquire s i = record s {
    outputs = set_status s.outputs i reading;
    main = idle;
    leased = i ∷ s.leased;
  }

  -- `release` of the snapshot of a bank.
  unfoldable pub release : System C S → ℕ → System C S
  release s i = record s { outputs = set_status s.outputs i free; leased = give_back i s.leased }

  unfoldable pub set_trace : System C S → Bool → System C S
  set_trace s enabled = record s { trace = enabled }

  -- `stop`, up to the join.
  unfoldable pub begin_stop : System C S → System C S
  begin_stop s = if s.retired then s else record s { stopping = true; main = joining }
