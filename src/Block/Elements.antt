-- ===== src/Block/Elements.antt =====
-- The sub-elements of a block (block.cpp): parse, get, find, remove, erase, push_back, insert.
use ndn_cxx_gm.Base.{
  ℕ, zero, suc, ◌+◌, ◌-◌, List, [], ◌∷◌, Bool, true, false, not, ◌||◌, Option, none, some, leb,
  ◌==◌, if◌then◌else◌, length, take, drop, ok, err, ◌>>=◌, ◌>>◌, guard,
}
use ndn_cxx_gm.Errors.{Error, Result, sub_element_exceeds, no_sub_element, stuck}
use ndn_cxx_gm.Tlv.{contiguous, read_type, read_var_number}
use ndn_cxx_gm.Block.{
  Block, block, Blocks, nil, cons, type, store, m_size, elements, wire, value, value_size, passed,
  reset_wire,
}

-- emplace_back
abbrev pub snoc : Blocks → Block → Blocks
snoc nil e = cons e nil
snoc (cons b bs) e = cons b (snoc bs e)

abbrev pub is_nil : Blocks → Bool
is_nil nil = true
is_nil (cons b bs) = false

-- One round of the loop in parse(): the sub-element at `begin`, and the bytes from `subEnd` on.
unfoldable pub next_element : List ℕ → Result (Block × List ℕ)
next_element begin = do
  (type, pos) ← read_type contiguous begin
  (length', pos') ← read_var_number contiguous pos
  guard (leb length' (length pos')) (sub_element_exceeds type)
  let header = passed begin pos'
  let value' = take length' pos'
  ok (block type (wire header value') (length header + length value') nil, drop length' pos')

-- What is left in m_elements when a round throws: only the TLV-LENGTH check clears it.
abbrev pub after_error : Error → Blocks → Blocks
after_error (sub_element_exceeds t) es = nil
after_error _ es = es

-- The loop of parse(), over the bytes from `begin` to `end`, on fuel.
unfoldable pub parse_loop : ℕ → List ℕ → Blocks → Blocks × Result (Unit {0})
parse_loop fuel [] es = (es, ok tt)
parse_loop zero (b ∷ bytes) es = (es, err stuck)
parse_loop (suc fuel) (b ∷ bytes) es = elim (next_element (b ∷ bytes)) [
  | ok (e, rest) ↦ parse_loop fuel rest (snoc es e)
  | err x ↦ (after_error x es, err x)
]

-- parse(): the block afterwards, and whether it returned or threw. Each round takes two bytes or
-- more, so the number of bytes is enough fuel.
unfoldable pub parse : Block → Block × Result (Unit {0})
parse b =
    let (es, r) = parse_loop (length (value b)) (value b) nil in
    if not (is_nil (elements b)) || (value_size b == 0)
    then (b, ok tt)
    else (block (type b) (store b) (m_size b) es, r)

-- find(type): the first sub-element of that type.
unfoldable pub find : ℕ → Blocks → Option Block
find t nil = none
find t (cons b bs) = if type b == t then some b else find t bs

-- get(type)
unfoldable pub get : Block → ℕ → Result Block
get b t = elim (find t (elements b)) [ none ↦ err (no_sub_element t (type b)) | some e ↦ ok e ]

abbrev with_elements : Block → Blocks → Block
with_elements b es = block (type b) (store b) (m_size b) es

-- `std::remove_if` and `erase` of the tail.
unfoldable pub remove_all : ℕ → Blocks → Blocks
remove_all t nil = nil
remove_all t (cons b bs) = let rest = remove_all t bs in if type b == t then rest else cons b rest

-- remove(type)
unfoldable pub remove : Block → ℕ → Block
unfolding remove_all
remove b t = with_elements (reset_wire b) (remove_all t (elements b))

-- erase(first, last), by positions; erase(position) is the range of one. Positions behind the end,
-- which the code must not pass, erase nothing.
unfoldable pub erase_range : ℕ → ℕ → Blocks → Blocks
erase_range first count nil = nil
erase_range zero zero (cons b bs) = cons b bs
erase_range zero (suc count) (cons b bs) = erase_range zero count bs
erase_range (suc first) count (cons b bs) = cons b (erase_range first count bs)

unfoldable pub erase : Block → ℕ → ℕ → Block
unfolding erase_range
erase b first last = with_elements (reset_wire b) (erase_range first (last - first) (elements b))

-- push_back(element)
unfoldable pub push_back : Block → Block → Block
push_back b e = with_elements (reset_wire b) (snoc (elements b) e)

-- A position behind the end, which the code must not pass, is taken for the end.
unfoldable pub insert_at : ℕ → Block → Blocks → Blocks
insert_at zero e bs = cons e bs
insert_at (suc pos) e nil = cons e nil
insert_at (suc pos) e (cons b bs) = cons b (insert_at pos e bs)

-- insert(pos, element)
unfoldable pub insert : Block → ℕ → Block → Block
unfolding insert_at
insert b pos e = with_elements (reset_wire b) (insert_at pos e (elements b))
