-- ===== src/Schedule/PlanPattern.antt =====
-- crates/conductr-schedule/src/from_plan.rs: the pattern that is made of a plan, and its text. A `Vec`
-- that is changed in place is a function from its index.
pub mod Pad
pub mod Edges
pub mod Batches
pub mod Layers
use conductr.Prelude.{
  ℕ, zero, suc, ◌+◌, ◌-◌, ◌*◌, ◌/◌, ◌%◌, Text, List, [], ◌∷◌, ◌++◌, Option, none, some, Bool, true,
  false, if◌then◌else◌, ◌==◌, leb, codes, map, text_eq, filter, is_empty, join,
}
use conductr.Prelude.Decimal.{show_nat}
use conductr.Schedule.Notation.{
  NoteValue, whole, half, quarter, eighth, sixteenth, thirty_second, sixty_fourth, in_64ths,
  bar_in_64ths, letter, TimeSignature, Tempo, wrap,
}
use conductr.Schedule.Pattern.{
  Beat, tag, subdivided, beat_value, Beats, no_beats, then_beat, Bar, Pattern,
}
use conductr.Schedule.FromPlan.{Plan, PlanItem}

-- The index of the last item with an identifier, from index `i` on: what collecting a `HashMap` of
-- identifiers keeps.
abbrev pub index_of : Text → ℕ → List PlanItem → Option ℕ
index_of id i [] = none
index_of id i (item ∷ rest) =
    let later = index_of id (i + 1) rest in
    elim later [ some j ↦ some j | none ↦ if text_eq item.id id then some i else none ]

-- The dependencies as pairs of an item's index and the index of an item that it waits for.
abbrev pub edges_of_item : List PlanItem → ℕ → List Text → List (ℕ × ℕ)
edges_of_item items i [] = []
edges_of_item items i (dep ∷ rest) =
    let later = edges_of_item items i rest in
    elim (index_of dep 0 items) [ none ↦ later | some j ↦ (i, j) ∷ later ]

abbrev pub edges_from : List PlanItem → ℕ → List PlanItem → List (ℕ × ℕ)
edges_from items i [] = []
edges_from items i (item ∷ rest) = edges_of_item items i item.deps ++ edges_from items (i + 1) rest

abbrev pub bump : ℕ → (ℕ → ℕ) → ℕ → ℕ
bump i in_degree k = if k == i then in_degree k + 1 else in_degree k

abbrev pub drop_one : ℕ → (ℕ → ℕ) → ℕ → ℕ
drop_one i in_degree k = if k == i then in_degree k - 1 else in_degree k

abbrev pub push : ℕ → ℕ → (ℕ → List ℕ) → ℕ → List ℕ
push j i successors k = if k == j then successors k ++ (i ∷ []) else successors k

-- The two vectors that the loop over the items fills.
abbrev pub fill_degrees : List (ℕ × ℕ) → (ℕ → ℕ) → ℕ → ℕ
fill_degrees [] in_degree = in_degree
fill_degrees ((i, j) ∷ rest) in_degree = fill_degrees rest (bump i in_degree)

abbrev pub fill_successors : List (ℕ × ℕ) → (ℕ → List ℕ) → ℕ → List ℕ
fill_successors [] successors = successors
fill_successors ((i, j) ∷ rest) successors = fill_successors rest (push j i successors)

abbrev pub from_to : ℕ → ℕ → List ℕ
from_to i zero = []
from_to i (suc n) = i ∷ from_to (i + 1) n

-- The loop over the successors of one item: the degrees and what is pushed on the queue.
unfoldable pub release : List ℕ → (ℕ → ℕ) → List ℕ × (ℕ → ℕ)
release [] in_degree = ([], in_degree)
release (i ∷ rest) in_degree =
    let after = drop_one i in_degree in
    let later = release rest after in ((if after i == 0 then i ∷ later.0 else later.0), later.1)

-- The loop over one batch: what it leaves in the queue, and the degrees.
unfoldable pub run_batch : (ℕ → List ℕ) → List ℕ → (ℕ → ℕ) → List ℕ × (ℕ → ℕ)
run_batch successors [] in_degree = ([], in_degree)
run_batch successors (j ∷ batch) in_degree =
    let first = release (successors j) in_degree in
    let later = run_batch successors batch first.1 in (first.0 ++ later.0, later.1)

-- The loop while the queue is not empty, on fuel.
unfoldable pub run_batches : ℕ → (ℕ → List ℕ) → List ℕ → (ℕ → ℕ) → List (List ℕ)
run_batches zero successors queue in_degree = []
run_batches (suc fuel) successors [] in_degree = []
run_batches (suc fuel) successors (j ∷ queue) in_degree =
    let step = run_batch successors (j ∷ queue) in_degree in
    (j ∷ queue) ∷ run_batches fuel successors step.0 step.1

abbrev pub count_items : List PlanItem → ℕ
count_items [] = 0
count_items (item ∷ rest) = suc (count_items rest)

-- The batches, as indices into the plan's items.
unfoldable pub batch_indices : List PlanItem → List (List ℕ)
batch_indices items =
    let edges = edges_from items 0 items in
    let in_degree = fill_degrees edges (λ k. 0) in
    run_batches (count_items items + 1) (fill_successors edges (λ k. []))
      (filter (λ k. in_degree k == 0) (from_to 0 (count_items items))) in_degree

-- `&items[i]`; the indices are all within.
abbrev item_at : List PlanItem → ℕ → List PlanItem
item_at [] i = []
item_at (item ∷ rest) zero = item ∷ []
item_at (item ∷ rest) (suc i) = item_at rest i

abbrev items_at : List PlanItem → List ℕ → List PlanItem
items_at items [] = []
items_at items (i ∷ rest) = item_at items i ++ items_at items rest

unfoldable pub topo_batches : Plan → List (List PlanItem)
topo_batches plan = map (items_at plan.items) (batch_indices plan.items)

unfoldable pub largest_note_fitting : ℕ → NoteValue
largest_note_fitting available =
    if leb 64 available
    then whole
    else if leb 32 available
    then half
    else if leb 16 available
    then quarter
    else if leb 8 available
    then eighth
    else if leb 4 available
    then sixteenth
    else if leb 2 available
    then thirty_second
    else sixty_fourth

-- The loop that pads a bar with rests, on fuel.
unfoldable pub pad : ℕ → ℕ → Beats
pad zero remaining = no_beats
pad (suc fuel) remaining =
    let nv = largest_note_fitting remaining in
    let rest = pad fuel (remaining - in_64ths nv) in
    if remaining == 0 then no_beats else then_beat (tag nv (codes "rest")) rest

unfoldable pub beats_of : List PlanItem → Beats → Beats
beats_of [] rests = rests
beats_of (item ∷ batch) rests = then_beat (tag item.estimate item.id) (beats_of batch rests)

abbrev pub sum_estimates : ℕ → List PlanItem → ℕ
sum_estimates sum [] = sum
sum_estimates sum (item ∷ rest) = sum_estimates (wrap (sum + in_64ths item.estimate)) rest

abbrev pub max_of : List ℕ → ℕ
max_of [] = 0
max_of (n ∷ rest) = if leb (max_of rest) n then n else max_of rest

-- The length of a bar, its largest batch.
abbrev pub bar_size : List (List PlanItem) → ℕ
bar_size batches = max_of (map (sum_estimates 0) batches)

abbrev pub time_signature_of : ℕ → TimeSignature
time_signature_of max_64ths = record { beats_per_bar = (max_64ths + 15) / 16; beat_unit = quarter }

unfoldable pub bar_of : ℕ → List PlanItem → Bar
bar_of max_64ths batch =
    let remaining = max_64ths - sum_estimates 0 batch in
    record {
      time_signature = time_signature_of max_64ths;
      beats = beats_of batch (pad remaining remaining);
    }

abbrev pub default_tempo : Tempo
default_tempo = record { quarter_seconds = 2 * 3600 }

abbrev common : TimeSignature
common = record { beats_per_bar = 4; beat_unit = quarter }

unfoldable pub pattern_of : List (List PlanItem) → Pattern
pattern_of [] = record { time_signature = common; tempo = default_tempo; bars = [] }
pattern_of (batch ∷ batches) = record {
  time_signature = time_signature_of (bar_size (batch ∷ batches));
  tempo = default_tempo;
  bars = map (bar_of (bar_size (batch ∷ batches))) (batch ∷ batches);
}

unfoldable pub plan_to_pattern : Plan → Pattern
plan_to_pattern plan = pattern_of (topo_batches plan)
