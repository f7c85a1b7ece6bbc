-- ===== src/Encoder/Runs.antt =====
-- ndn-cxx/encoding/encoder.cpp on small buffers, one of them too small for what is written.
use ndn_cxx_gm.Base.{◌≡◌, refl, [], ◌∷◌, arith}
use ndn_cxx_gm.Encoder.{Encoder, contents, prepend_bytes, reserve, reserve_front}
use ndn_cxx_gm.Encoder.Contents.{IsValid}

-- Three bytes of buffer, of which the last two are in use.
abbrev small : Encoder
small = record { buffer = 0 ∷ 7 ∷ 8 ∷ []; begin = 1; end = 3 }

small-IsValid : IsValid small
small-IsValid = record { ordered = omega arith; within = omega arith }

prepend_reallocates : contents (prepend_bytes small (1 ∷ 2 ∷ [])).0 ≡ 1 ∷ 2 ∷ 7 ∷ 8 ∷ []
unfolding prepend_bytes reserve_front reserve
prepend_reallocates = refl
