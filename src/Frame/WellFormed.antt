-- ===== src/Frame/WellFormed.antt =====
-- Which frames come back from the wire as they were sent.
use flow_q.Prelude.{ℕ, ◌<◌, ◌≡◌, ◌⊎◌, true, List, [], ◌∷◌, ◌++◌, length, Result, ok, ◌>>=◌}
use flow_q.Frame.{Frame, padding, stream, path_challenge, path_response}
use flow_q.Frame.Encode.{encode_frame}

-- A run of padding is not empty, a STREAM frame without an offset field stands at 0, and the data of
-- a path frame has the eight bytes of its array.
abbrev pub IsWellFormed : Frame → Type 0
IsWellFormed (padding count) = 0 < count
IsWellFormed (stream f) = (f.offset_present ≡ true) ⊎ (f.offset ≡ 0)
IsWellFormed (path_challenge bytes) = length bytes ≡ 8
IsWellFormed (path_response bytes) = length bytes ≡ 8
IsWellFormed _ = Unit

-- The input does not begin with a zero byte.
abbrev pub NotZeroFirst : List ℕ → Type 0
NotZeroFirst [] = Unit
NotZeroFirst (b ∷ bs) = 0 < b

-- What may stand behind a frame: a run of padding ends before a byte that is not zero, and a STREAM
-- frame without a length field is the last.
abbrev pub MayFollow : Frame → List ℕ → Type 0
MayFollow (padding count) rest = NotZeroFirst rest
MayFollow (stream f) rest = (f.length_present ≡ true) ⊎ (rest ≡ [])
MayFollow _ rest = Unit

-- A payload: the encodings one after the other.
unfoldable pub encode_payload : List Frame → Result (List ℕ)
encode_payload [] = ok []
encode_payload (f ∷ fs) = do bytes ← encode_frame f; rest ← encode_payload fs; ok (bytes ++ rest)

abbrev pub IsPadding : Frame → Type 0
IsPadding (padding count) = Unit
IsPadding _ = ⊥

-- No two runs of padding side by side, and no STREAM frame without a length before the last.
abbrev pub MayPrecede : Frame → List Frame → Type 0
MayPrecede f [] = Unit
MayPrecede (padding count) (g ∷ fs) = ¬ IsPadding g
MayPrecede (stream f) (g ∷ fs) = f.length_present ≡ true
MayPrecede _ (g ∷ fs) = Unit

abbrev pub IsWellFormedPayload : List Frame → Type 0
IsWellFormedPayload [] = Unit
IsWellFormedPayload (f ∷ fs) = IsWellFormed f × MayPrecede f fs × IsWellFormedPayload fs
