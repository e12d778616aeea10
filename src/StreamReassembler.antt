-- ===== src/StreamReassembler.antt =====
-- libsponge/stream_reassembler.{hh,cc}: substrings that arrive out of order become a byte stream.
pub mod Source
pub mod Merge
pub mod Entries
pub mod Pass
pub mod Enter
pub mod Push
pub mod Session
mod Examples
use mathlib.Core.List.{Permᴰ, map}
use cs144_sponge.Base.{
  ℕ, zero, suc, ◌+◌, ◌-◌, ◌≤◌, ◌<◌, ◌^◌, Bool, true, false, ◌&&◌, ◌||◌, not, Option, none, some,
  List, [], ◌∷◌, ◌++◌, ltb, leb, ◌==◌, if◌then◌else◌, length, is_empty, take, drop, replicate, min,
  max, add64, sub64, u32, Result, ok, err, out_of_range, out_of_fuel, ◌>>=◌,
}
use cs144_sponge.ByteStream
use cs144_sponge.ByteStream.{ByteStream}

-- An `unordered_map<size_t, string>` in the order in which it is iterated.
abbrev pub Entries : Type 0
Entries = List (ℕ × List ℕ)

-- The order of iteration is the standard library's: an insertion leaves the same entries in some
-- order. (Erasing keeps the order of the others.)
pub record HashOrder : Type 0 where
  pub arrange : Entries → Entries
  pub arranged : (m : Entries) → Permᴰ m (arrange m)

pub record StreamReassembler : Type 0 where
  pub output : ByteStream
  pub capacity : ℕ
  pub willing : ℕ
  pub reassembler : Entries
  pub end_flag : Bool
  pub total_write : ℕ
  pub bytes_writed : ℕ

unfoldable pub new : ℕ → StreamReassembler
new capacity = record {
  output = ByteStream.new capacity;
  capacity = capacity;
  willing = 0;
  reassembler = [];
  end_flag = false;
  total_write = 0;
  bytes_writed = 0;
}

-- `std::copy` of `src` to the place `offset` of `dst`; what would fall behind the end is dropped.
pub copy_to : List ℕ → ℕ → List ℕ → List ℕ
copy_to src offset [] = []
copy_to src (suc k) (d ∷ dst) = d ∷ copy_to src k dst
copy_to [] zero (d ∷ dst) = d ∷ dst
copy_to (x ∷ src) zero (d ∷ dst) = x ∷ copy_to src zero dst

pub merge_substrings : List ℕ → ℕ → List ℕ → ℕ → List ℕ
unfolding copy_to
merge_substrings str1 index1 str2 index2 =
    let start = min index1 index2 in
    let combined_length = max (index1 + length str1) (index2 + length str2) - start in
    copy_to str2 (index2 - start) (copy_to str1 (index1 - start) (replicate combined_length 0))

pub find : ℕ → Entries → Option (List ℕ)
find key [] = none
find key ((k, v) ∷ m) = if k == key then some v else find key m

pub erase : ℕ → Entries → Entries
erase key [] = []
erase key ((k, v) ∷ m) = if k == key then m else (k, v) ∷ erase key m

-- An assignment to an entry that is there keeps its place.
pub update : ℕ → List ℕ → Entries → Entries
update key w [] = []
update key w ((k, v) ∷ m) = if k == key then (k, w) ∷ m else (k, v) ∷ update key w m

-- `m[key]`: the value, empty where the key is missing.
pub value_at : ℕ → Entries → List ℕ
unfolding find
value_at key m = elim (find key m) [ none ↦ [] | some v ↦ v ]

pub keys : Entries → List ℕ
keys = map λ e. e.0

-- The sum of the sizes.
pub total_size : Entries → ℕ
total_size [] = 0
total_size ((k, v) ∷ m) = length v + total_size m

-- `std::greater<int>` compares the keys as 32-bit signed numbers: shifted by half the range, their
-- patterns compare as unsigned numbers do.
abbrev as_int : ℕ → ℕ
as_int key = u32 (key + 2 ^ 31)

-- The key that comes first once the keys are sorted by `std::greater<int>`.
pub first_sorted : List ℕ → Option ℕ
first_sorted [] = none
first_sorted (k ∷ ks) = elim (first_sorted ks) [
  | none ↦ some k
  | some j ↦ if ltb (as_int k) (as_int j) then some j else some k
]

module _ (h : HashOrder) where
  -- `m[key] = w`
  pub assign : ℕ → List ℕ → Entries → Entries
  unfolding find update
  assign key w m = elim (find key m) [ none ↦ h.arrange ((key, w) ∷ m) | some v ↦ update key w m ]

  -- Reading `m[key]` enters an empty value for a key that is missing.
  pub touch : ℕ → Entries → Entries
  unfolding find
  touch key m = elim (find key m) [ none ↦ h.arrange ((key, []) ∷ m) | some v ↦ m ]

  -- The loop over the collected keys: the new substring absorbs the entries that it overlaps.
  pub absorb : List ℕ → List ℕ → ℕ → Entries → List ℕ × ℕ × Entries
  unfolding touch value_at erase merge_substrings
  absorb [] d i m = (d, i, m)
  absorb (key ∷ ks) d i m =
      let m' = touch key m in
      let v = value_at key m' in
      let first_end = sub64 (add64 key (length v)) 1 in
      let second_end = sub64 (add64 i (length d)) 1 in
      let apart = ltb second_end key || ltb first_end i in
      absorb ks (if apart then d else merge_substrings d i v key) (if apart then i else min key i)
        (if apart then m' else erase key m')

  -- What the loop over the sorted keys does before its `break`. An erased entry is entered again,
  -- empty, by the reads that follow.
  pub shorten : ℕ → ℕ → Entries → Entries
  unfolding touch value_at erase assign
  shorten key excess m =
      let m' = touch key m in
      let all = leb (length (value_at key m')) excess in
      let excess' = if all then sub64 excess (length (value_at key m')) else excess in
      let m'' = touch key (if all then erase key m' else m') in
      let v = value_at key m'' in assign key (take (sub64 (length v) excess') v) m''

  -- The capacity check.
  pub trim : ByteStream → ℕ → List ℕ → Entries → Entries
  unfolding total_size first_sorted shorten
  trim out capacity ks m =
      let used = add64 (ByteStream.buffer_size out) (total_size m) in
      if ltb capacity used
      then elim (first_sorted ks) [ none ↦ m | some key ↦ shorten key (sub64 used capacity) m ]
      else m

-- The variables of the loop that reassembles.
pub record Assembly : Type 0 where
  pub output : ByteStream
  pub willing : ℕ
  pub bytes_writed : ℕ

-- `_output.write(temp_str)` and the counting of what it took.
pub put : List ℕ → Assembly → Assembly
put d a =
    let (n, out) = ByteStream.write d a.output in
    record a { output = out; willing = add64 a.willing n; bytes_writed = add64 a.bytes_writed n }

-- An entry at or before `willing` that has been erased from the map: what is new in it is written.
pub deliver : ℕ → List ℕ → Assembly → Result Assembly
unfolding put
deliver k v a =
    if ltb (sub64 (add64 k (length v)) 1) a.willing
    then ok a
    else if ltb (length v) (sub64 a.willing k)
    then err out_of_range
    else ok (put (drop (sub64 a.willing k) v) a)

-- One pass over the map; the entries that stay come back beside the variables.
pub pass : Entries → Assembly → Result (Entries × Assembly)
unfolding deliver
pass [] a = ok ([], a)
pass ((k, v) ∷ m) a = elim (ltb a.willing k) [
  | true ↦ pass m a >>= λ r. ok ((k, v) ∷ r.0, r.1)
  | false ↦ deliver k v a >>= λ a'. pass m a'
]

-- Passes until one writes nothing. A pass that writes takes an entry off, so one more round than
-- there are entries is enough.
pub passes : ℕ → Entries → Assembly → Result (Entries × Assembly)
unfolding pass
passes zero m a = err out_of_fuel
passes (suc fuel) m a =
    pass m a >>= λ r. elim (a.willing == r.1.willing) [ true ↦ ok r | false ↦ passes fuel r.0 r.1 ]

-- `if (end_flag && bytes_writed == total_write) _output.end_input()`
pub finish : StreamReassembler → StreamReassembler
finish r =
    if r.end_flag && r.bytes_writed == r.total_write
    then record r { output = ByteStream.end_input r.output }
    else r

pub note_end : ℕ → Bool → StreamReassembler → StreamReassembler
note_end last eof r = if eof then record r { end_flag = true; total_write = last } else r

-- The bytes before `willing` are cut off where the substring reaches past it.
pub clip : List ℕ → ℕ → ℕ → List ℕ × ℕ
clip d index willing =
    if ltb index willing && leb willing (sub64 (add64 index (length d)) 1)
    then (drop (sub64 willing index) d, willing)
    else (d, index)

-- The passes, and the end of the stream.
pub reassemble : Entries → StreamReassembler → Result StreamReassembler
unfolding passes finish
reassemble m r =
    passes (suc (length m)) m
      (record { output = r.output; willing = r.willing; bytes_writed = r.bytes_writed })
    >>= λ p. ok (
        finish (record r {
          output = p.1.output;
          willing = p.1.willing;
          bytes_writed = p.1.bytes_writed;
          reassembler = p.0;
        }))

module _ (h : HashOrder) where
  -- The map with a non-empty substring entered, before the passes.
  pub enter : List ℕ → ℕ → StreamReassembler → Entries
  unfolding clip keys absorb assign trim
  enter d index r =
      let (d', index') = clip d index r.willing in
      let ks = keys r.reassembler in
      let (d'', index'', m) = absorb h ks d' index' r.reassembler in
      trim h r.output r.capacity ks (assign h index'' d'' m)

  unfoldable pub push_substring : List ℕ → ℕ → Bool → StreamReassembler → Result StreamReassembler
  unfolding note_end finish enter reassemble
  push_substring d index eof r =
      let r' = note_end (add64 index (length d)) eof r in
      if is_empty d then ok (finish r') else reassemble (enter d index r') r'

seen : ℕ → List ℕ → Bool
seen i [] = false
seen i (p ∷ pos) = i == p || seen i pos

-- The count so far, and the positions that were counted.
count_value : ℕ → List ℕ → ℕ × List ℕ → ℕ × List ℕ
unfolding seen
count_value i [] (n, pos) = (n, pos)
count_value i (x ∷ v) (n, pos) =
    count_value (add64 i 1) v (if seen i pos then (n, pos) else (n + 1, i ∷ pos))

count_entries : Entries → ℕ × List ℕ → ℕ × List ℕ
unfolding count_value
count_entries [] acc = acc
count_entries ((k, v) ∷ m) acc = count_entries m (count_value k v acc)

unfoldable pub unassembled_bytes : StreamReassembler → ℕ
unfolding count_entries
unassembled_bytes r = (count_entries r.reassembler (0, [])).0

unfoldable pub empty : StreamReassembler → Bool
empty r = (ByteStream.buffer_size r.output + length r.reassembler) == 0
