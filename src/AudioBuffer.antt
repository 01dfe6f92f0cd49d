-- ===== src/AudioBuffer.antt =====
-- modules/audio_buffer.rs: the single-writer, multi-reader sample ring.
-- A sample is the bit pattern that its cell holds (`f32::to_bits`); `usize` and `u64` are 64 bits.
-- Memory orderings are not modelled: a load or a store of an atomic is one step of memory.
pub mod Index
pub mod Shape
pub mod Content
pub mod Sequential
pub mod Concurrent
pub mod Seqlock
mod Tests
use Prim.Native.Nat.{bit_and}
use al.Prelude.{
  ℕ, zero, suc, ◌+◌, ◌-◌, ◌/◌, ◌%◌, ◌^◌, min, Bool, true, false, ◌&&◌, Option, none, some, List, [],
  ◌∷◌, ◌++◌, leb, ltb, ◌==◌, if◌then◌else◌, length, get_or, set, take, drop, replicate, any,
  Outcome, returns, panics,
}

-- `u64::wrapping_add`
abbrev pub wrapping_add : ℕ → ℕ → ℕ
wrapping_add a b = (a + b) % 2 ^ 64

-- `u64::saturating_add`; `saturating_sub` is `-` on ℕ.
abbrev pub saturating_add : ℕ → ℕ → ℕ
saturating_add a b = min (a + b) (2 ^ 64 - 1)

pub data ReadStatus : Type 0 where
  ready : ReadStatus
  wait : ReadStatus
  lagged : ℕ → ReadStatus

-- `Inner`, with `cells` for `data`.
pub record Inner : Type 0 where
  pub cells : List ℕ
  pub capacity : ℕ
  pub capacity_minus_margin : ℕ
  pub safety_margin : ℕ
  pub writer_taken : Bool
  pub head : ℕ

pub record Reader : Type 0 where
  pub tail : ℕ

-- The powers of two that a `usize` holds.
abbrev pub powers_of_two : ℕ → List ℕ
powers_of_two zero = []
powers_of_two (suc n) = 2 ^ n ∷ powers_of_two n

-- `usize::is_power_of_two`
unfoldable pub is_power_of_two : ℕ → Bool
is_power_of_two n = any (λ p. p == n) (powers_of_two 64)

unfoldable pub new : ℕ → Outcome Inner
new capacity =
    if leb 4 capacity && is_power_of_two capacity
    then returns (record {
      cells = replicate capacity 0;
      capacity = capacity;
      capacity_minus_margin = capacity - capacity / 4;
      safety_margin = capacity / 4;
      writer_taken = false;
      head = 0;
    })
    else panics

-- The swap of the flag; the writer itself holds nothing but the shared state.
unfoldable pub take_writer : Inner → Outcome Inner
take_writer b = if b.writer_taken then panics else returns (record b { writer_taken = true })

-- `Writer::drop`
unfoldable pub drop_writer : Inner → Inner
drop_writer b = record b { writer_taken = false }

unfoldable pub reader : Inner → Reader
reader b = record { tail = b.head }

unfoldable pub reader_at : Inner → ℕ → Reader
reader_at b behind_head = record { tail = b.head - behind_head }

-- The cell of an absolute position: `position & (capacity - 1)`.
abbrev pub cell_of : Inner → ℕ → ℕ
cell_of b position = bit_and position (b.capacity - 1)

-- The samples with the indices of the cells from `i` on.
unfoldable pub number : ℕ → List ℕ → List (ℕ × ℕ)
number i [] = []
number i (x ∷ xs) = (i, x) ∷ number (suc i) xs

-- The cell stores of a push, in program order: up to the end of the ring, then from its start.
unfoldable pub push_writes : Inner → List ℕ → List (ℕ × ℕ)
push_writes b samples =
    let start = cell_of b b.head in
    let first = min (b.capacity - start) (length samples) in
    number start (take first samples) ++ number 0 (drop first samples)

unfoldable pub store_all : List ℕ → List (ℕ × ℕ) → List ℕ
store_all cells [] = cells
store_all cells ((i, x) ∷ writes) = store_all (set cells i x) writes

-- The ring after the stores of a push and the publication of `head`.
abbrev pub pushed : Inner → List ℕ → Inner
pushed b samples = record b {
  cells = store_all b.cells (push_writes b samples);
  head = wrapping_add b.head (length samples);
}

-- `Writer::push`
unfoldable pub push : Inner → List ℕ → Outcome Inner
push b samples =
    let n = length samples in
    if n == 0
    then returns b
    else if leb n b.safety_margin
    then returns (pushed b samples)
    else panics

-- The indices from `i` on.
unfoldable pub span : ℕ → ℕ → List ℕ
span i zero = []
span i (suc n) = i ∷ span (suc i) n

-- The cell loads of a peek, in program order.
unfoldable pub peek_reads : Inner → ℕ → ℕ → List ℕ
peek_reads b tail n =
    let start = cell_of b tail in
    let first = min (b.capacity - start) n in span start first ++ span 0 (n - first)

unfoldable pub load_all : List ℕ → List ℕ → List ℕ
load_all cells [] = []
load_all cells (i ∷ reads) = get_or cells i 0 ∷ load_all cells reads

-- The bounds check on the first load of `head`: `none` goes on to the loads.
unfoldable pub precheck : Inner → ℕ → ℕ → ℕ → Option ReadStatus
precheck b tail n h0 =
    let avail = h0 - tail in
    if ltb avail n
    then some wait
    else if ltb b.capacity_minus_margin avail
    then some (lagged avail)
    else none

-- The status after the second load of `head`.
unfoldable pub recheck : Inner → ℕ → ℕ → ReadStatus
recheck b tail h1 =
    let avail1 = h1 - tail in if leb avail1 b.capacity_minus_margin then ready else lagged avail1

-- What follows the bounds check.
unfoldable pub copy_out : Inner → ℕ → List ℕ → Option ReadStatus → ReadStatus × List ℕ
copy_out b tail out (some status) = (status, out)
copy_out b tail out none =
    (recheck b tail b.head, load_all b.cells (peek_reads b tail (length out)))

-- `Reader::peek_into` with no writer beside it; the list is `out` as the call leaves it.
unfoldable pub peek_into : Inner → Reader → List ℕ → Outcome (ReadStatus × List ℕ)
unfolding copy_out
peek_into b r out =
    let n = length out in
    if n == 0
    then returns (ready, out)
    else if leb n b.capacity_minus_margin
    then returns (copy_out b r.tail out (precheck b r.tail n b.head))
    else panics

-- `Reader::advance`
unfoldable pub advance : Inner → Reader → ℕ → Outcome Reader
advance b r n =
    let tail = saturating_add r.tail n in
    if leb tail b.head then returns (record { tail = tail }) else panics

-- `Reader::seek_latest`
unfoldable pub seek_latest : Inner → ℕ → Reader
seek_latest b n = record { tail = b.head - n }

-- `Reader::available`
unfoldable pub available : Inner → Reader → ℕ
available b r = b.head - r.tail
