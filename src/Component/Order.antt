-- ===== src/Component/Order.antt =====
-- ndn-cxx/name-component.cpp: equals and compare.
use ndn_cxx_gm.Base.{
  ℕ, ◌+◌, ◌-◌, ◌%◌, ◌^◌, ◌&&◌, Bool, ltb, ◌==◌, if◌then◌else◌, min, Ordering, not,
}
use ndn_cxx_gm.Base.Bits.{u32_mod, u64_mod}
use ndn_cxx_gm.Base.Memory.{memcmp, is_eq}
use ndn_cxx_gm.Block.{Block, type, value, value_size, has_wire, wire_bytes, m_size}

-- equals
unfoldable pub equals : Block → Block → Bool
equals c other =
    (type c == type other)
    && (value_size c == value_size other)
    && is_eq (memcmp (value_size c) (value c) (value other))

-- The sign of an `int`, given as a residue modulo 2^32.
abbrev pub sign : ℕ → Ordering
sign n = if n == 0 then Ordering.eq else if ltb n (2 ^ 31) then Ordering.gt else Ordering.lt

-- The sign of compare's result. The differences are of uint32_t and of size_t; both become `int`.
unfoldable pub compare : Block → Block → Ordering
compare c other =
    if has_wire c && has_wire other
    then memcmp (min (m_size c) (m_size other)) (wire_bytes c) (wire_bytes other)
    else let cmp_type = (type c + u32_mod - type other) % u32_mod in
      let cmp_size = (value_size c + u64_mod - value_size other) % u64_mod % u32_mod in
      if not (cmp_type == 0)
      then sign cmp_type
      else if not (cmp_size == 0)
      then sign cmp_size
      else if value_size c == 0
      then Ordering.eq
      else memcmp (value_size c) (value c) (value other)
