-- ===== src/Download.antt =====
-- ResolveSelection of download/selection.go: the tracks of a download. The duration, which is only
-- carried over, the other columns of the rows, and the arguments of FFmpeg are left out.
use text.Mathlib.Text.{◌==◌ as str_eq}
use videocms.Base.{
  ℕ, ◌==◌, Bool, true, false, not, ◌&&◌, Option, none, some, String, List, [], ◌∷◌, ltb,
  count_where, first, select, length, if◌then◌else◌,
}
pub mod Tracks

pub record Quality : Type 0 where
  pub name : String
  pub ready : Bool

pub record Audio : Type 0 where
  pub uuid : String
  pub ready : Bool

pub record Subtitle : Type 0 where
  pub uuid : String
  pub ready : Bool

-- The File of a link, with the rows that belong to it.
pub record Source : Type 0 where
  pub qualitys : List Quality
  pub audios : List Audio
  pub subtitles : List Subtitle

pub record Selection : Type 0 where
  pub container : String
  pub quality : Quality
  pub audios : List Audio
  pub subtitles : List Subtitle

abbrev pub selection : String → Quality → List Audio → List Subtitle → Selection
selection container quality audios subtitles = record {
  container = container;
  quality = quality;
  audios = audios;
  subtitles = subtitles;
}

-- The errors, by their texts.
pub data SelectionError : Type 0 where
  quality_unavailable selection_required mp4_subtitles mp4_one_audio audio_unavailable :
      SelectionError
  subtitle_unavailable unsupported_container : SelectionError

pub data Selected {ℓ} (V : Type ℓ) : Type ℓ where
  chosen : V → Selected V
  refused : SelectionError → Selected V

infixl 5 ◌>>=◌
abbrev pub ◌>>=◌ {ℓ κ} : {V : Type ℓ} {W : Type κ} → Selected V → (V → Selected W) → Selected W
s >>= next = elim s [ chosen v ↦ next v | refused error ↦ refused error ]

abbrev pub is_taken : List String → String → Bool
is_taken seen uuid = ltb 0 (count_where (λ s. str_eq s uuid) seen)

module _ {A : Type 0} (uuid_of : A → String) (is_ready : A → Bool) where
  -- The Go map of the ready tracks: of two with one UUID the later one is kept.
  unfoldable pub ready_track : List A → String → Option A
  ready_track [] uuid = none
  ready_track (t ∷ ts) uuid =
      let later = ready_track ts uuid in
      elim later [
        | some other ↦ some other
        | none ↦ if is_ready t && str_eq (uuid_of t) uuid then some t else none
      ]

  -- The loop of selectedReadyAudios and of selectedReadySubtitles.
  unfoldable pub selected_ready :
      SelectionError → List A → List String → List String → Selected (List A)
  unfolding ready_track
  selected_ready error tracks seen [] = chosen []
  selected_ready error tracks seen (uuid ∷ rest) = elim (is_taken seen uuid) [
    | true ↦ selected_ready error tracks seen rest
    | false ↦ elim (ready_track tracks uuid) [
      | none ↦ refused error
      | some track ↦
          selected_ready error tracks (uuid ∷ seen) rest >>= λ others. chosen (track ∷ others)
    ]
  ]

abbrev pub audio_uuid : Audio → String
audio_uuid a = a.uuid

abbrev pub audio_ready : Audio → Bool
audio_ready a = a.ready

abbrev pub subtitle_uuid : Subtitle → String
subtitle_uuid s = s.uuid

abbrev pub subtitle_ready : Subtitle → Bool
subtitle_ready s = s.ready

-- The first of the ready audios, for a stream.
unfoldable pub default_audio : List Audio → List Audio
default_audio audios = elim (first audio_ready audios) [ none ↦ [] | some a ↦ a ∷ [] ]

-- The one audio of an MP4.
unfoldable pub single_audio : List Audio → List String → Selected (List Audio)
unfolding ready_track
single_audio audios (uuid ∷ []) = elim (ready_track audio_uuid audio_ready audios uuid) [
  | none ↦ refused SelectionError.audio_unavailable
  | some audio ↦ chosen (audio ∷ [])
]
single_audio audios _ = refused SelectionError.mp4_one_audio

unfoldable pub resolve_selection :
    Source → String → String → Bool → Bool → List String → List String → Selected Selection
unfolding default_audio single_audio selected_ready
resolve_selection source quality_name container streaming custom audio_uuids subtitle_uuids =
    elim (first (λ (q : Quality). str_eq q.name quality_name && q.ready) source.qualitys) [
      | none ↦ refused SelectionError.quality_unavailable
      | some quality ↦
          if streaming
          then chosen (selection container quality (default_audio source.audios) [])
          else if not custom
          then refused SelectionError.selection_required
          else if str_eq container "mp4"
          then (if ltb 0 (length subtitle_uuids)
              then refused SelectionError.mp4_subtitles
              else single_audio source.audios audio_uuids >>= λ audios.
                  chosen (selection container quality audios []))
          else if not (str_eq container "mkv")
          then refused SelectionError.unsupported_container
          else selected_ready audio_uuid audio_ready SelectionError.audio_unavailable source.audios
              [] audio_uuids
            >>= λ audios.
                selected_ready subtitle_uuid subtitle_ready SelectionError.subtitle_unavailable
                  source.subtitles [] subtitle_uuids
                >>= λ subtitles. chosen (selection container quality audios subtitles)
    ]
