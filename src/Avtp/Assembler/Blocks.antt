-- ===== src/Avtp/Assembler/Blocks.antt =====
-- What the assembler of access units has collected, as a block of the newest fragments.
-- Histories and blocks of fragments are written newest first.
use video_pipeline.Base.{
  ℕ, ◌≤◌, ◌≡◌, ◌⊎◌, true, false, List, [], ◌∷◌, ◌++◌, Option, none, some, length,
}
use video_pipeline.Base.Int.{ℤ}
use video_pipeline.Media.Wire.{All}
use video_pipeline.Avtp.Assembler.{AvtpAccessUnit, Fragment, Assembler, Outcome, next_sequence}

-- The payloads of a block of fragments, oldest first.
abbrev pub contents : List Fragment → List ℕ
contents [] = []
contents (f ∷ fs) = contents fs ++ f.fragment_payload

-- Each fragment follows the one below it: the next sequence number, and no marker before it.
abbrev pub Consecutive : List Fragment → Type 0
Consecutive [] = Unit {0}
Consecutive (f ∷ []) = Unit {0}
Consecutive (f ∷ g ∷ fs) =
    (f.packet.sequence_num ≡ next_sequence g.packet.sequence_num)
    × (g.packet.marker ≡ false)
    × Consecutive (g ∷ fs)

-- The fragment belongs to the stream and, if its packet had an Ethernet header, comes from the MAC.
abbrev pub IsFrom : ℕ → List ℕ → Fragment → Type 0
IsFrom stream mac f =
    (f.packet.stream_id ≡ stream)
    × ((f.packet.has_ethernet_header ≡ false) ⊎ (f.packet.source_mac ≡ mac))

-- The times of the access unit are those of the oldest fragment.
abbrev pub Timed : ℤ → ℕ → List Fragment → Type 0
Timed captured stamp [] = ⊥
Timed captured stamp (f ∷ []) = (captured ≡ f.captured_us) × (stamp ≡ f.packet.avtp_timestamp)
Timed captured stamp (f ∷ g ∷ fs) = Timed captured stamp (g ∷ fs)

-- What `current` was collected from.
pub record Open (s : Assembler) (block : List Fragment) : Type 0 where
  pub content : s.current ≡ contents block
  pub some_bytes : 1 ≤ length s.current
  pub timed : Timed s.first_capture_timestamp_us s.first_avtp_timestamp block
  pub consecutive : Consecutive block
  pub one_stream : All (IsFrom s.current_stream s.current_mac) block
  pub keeping : s.dropping_until_marker ≡ false

-- `current` holds the payloads of the block.
abbrev pub Collected : Assembler → List Fragment → Type 0
Collected s [] = s.current ≡ []
Collected s (f ∷ fs) = Open s (f ∷ fs)

-- The state waits for the fragment that follows the block.
abbrev pub Expects : Assembler → List Fragment → Type 0
Expects s [] = Unit {0}
Expects s (f ∷ fs) =
    (f.packet.marker ≡ false)
    × (s.have_expected_sequence ≡ true)
    × (s.expected_sequence ≡ next_sequence f.packet.sequence_num)

-- After the fragments `history`, `current` holds the payloads of the newest ones.
abbrev pub Inv : ℕ → List Fragment → Assembler → Type 0
Inv max history s =
    (block : List Fragment) × (back : List Fragment) × (history ≡ block ++ back)
    × Collected s block
    × Expects s block
    × (length s.current ≤ max)
    × (s.max_access_unit_size ≡ max)

-- What an access unit that comes out is made of: the payloads of the newest fragments, which have one
-- stream, consecutive sequence numbers, and the marker on the newest and on no other.
abbrev pub IsUnitOf : ℕ → List Fragment → AvtpAccessUnit → Type 0
IsUnitOf max history u =
    (f : Fragment) × (fs : List Fragment) × (back : List Fragment) × (stream : ℕ) × (mac : List ℕ)
    × (history ≡ (f ∷ fs) ++ back)
    × (u.content ≡ contents (f ∷ fs))
    × (length u.content ≤ max)
    × (f.packet.marker ≡ true)
    × Consecutive (f ∷ fs)
    × All (IsFrom stream mac) (f ∷ fs)
    × Timed u.capture_timestamp_us u.avtp_timestamp (f ∷ fs)

abbrev pub Emits : ℕ → List Fragment → Option AvtpAccessUnit → Type 0
Emits max history none = Unit {0}
Emits max history (some u) = IsUnitOf max history u

abbrev pub Sound : ℕ → List Fragment → Outcome → Type 0
Sound max history (r, out, s) = Emits max history out × Inv max history s
