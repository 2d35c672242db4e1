-- ===== src/Download/Tracks.antt =====
-- What ResolveSelection of download/selection.go selects for a download: the tracks asked for.
use text.Mathlib.Text.{◌==◌ as str_eq}
use videocms.Base.{
  ◌≡◌, refl, subst, inl, inr, Bool, true, false, ◌&&◌, some, String, List, [], ◌∷◌, arith, ltb,
  count_where, first, first-hit, length, Bool-cases, Option-cases, if◌then◌else◌,
}
use videocms.Download.{
  Quality, Audio, Subtitle, Source, Selection, SelectionError, Selected, chosen, refused, ◌>>=◌,
  is_taken, ready_track, selected_ready, audio_uuid, audio_ready, subtitle_uuid, subtitle_ready,
  single_audio, resolve_selection, selection,
}

-- The UUIDs without repetitions, each where it stands first.
abbrev pub distinct : List String → List String → List String
distinct seen [] = []
distinct seen (uuid ∷ rest) =
    let again = distinct seen rest in
    let others = distinct (uuid ∷ seen) rest in if is_taken seen uuid then again else uuid ∷ others

-- The tracks are those of the UUIDs, one for each, and all are ready.
abbrev pub AreTracks : {A : Type 0} → (A → String) → (A → Bool) → List String → List A → Type 0
AreTracks uuid_of is_ready [] [] = Unit
AreTracks uuid_of is_ready (uuid ∷ uuids) (t ∷ ts) =
    ((str_eq (uuid_of t) uuid ≡ true) × (is_ready t ≡ true)) × AreTracks uuid_of is_ready uuids ts
AreTracks uuid_of is_ready _ _ = ⊥

chosen->>= {ℓ κ} :
    {V : Type ℓ} {W : Type κ} (s : Selected V) (next : V → Selected W) {w : W}
    → (s >>= next) ≡ chosen w
    → (v : V) × (s ≡ chosen v) × (next v ≡ chosen w)
chosen->>= (chosen v) next h = (v, refl, h)
chosen->>= (refused error) next h = cc

module _ {A : Type 0} (uuid_of : A → String) (is_ready : A → Bool) where
  ready_track-hit :
      (tracks : List A) (uuid : String) {t : A}
      → ready_track uuid_of is_ready tracks uuid ≡ some t
      → (str_eq (uuid_of t) uuid ≡ true) × (is_ready t ≡ true)
  unfolding ready_track
  ready_track-hit [] uuid e = absurd (cc)
  ready_track-hit (x ∷ xs) uuid {t} e = elim (Option-cases (ready_track uuid_of is_ready xs uuid)) [
    | inr (later, found) ↦ ready_track-hit xs uuid (ground (arith, e, found))
    | inl missing ↦ elim (Bool-cases (is_ready x && str_eq (uuid_of x) uuid)) [
      | inl hit ↦
          let same : x ≡ t = ground (arith, e, missing, hit) in
          subst (λ (a : A). (str_eq (uuid_of a) uuid ≡ true) × (is_ready a ≡ true)) same
            (ground (arith, hit), ground (arith, hit))
      | inr miss ↦ absurd (ground (arith, e, missing, miss))
    ]
  ]

  same : {a b : List A} → ◌≡◌ {A = Selected (List A)} (chosen a) (chosen b) → a ≡ b
  same h = cc

  selected_ready-AreTracks :
      (error : SelectionError) (tracks : List A) (seen uuids : List String) {ts : List A}
      → selected_ready uuid_of is_ready error tracks seen uuids ≡ chosen ts
      → AreTracks uuid_of is_ready (distinct seen uuids) ts
  unfolding selected_ready
  selected_ready-AreTracks error tracks seen [] e =
      subst (λ (xs : List A). AreTracks uuid_of is_ready [] xs) (same e) tt
  selected_ready-AreTracks error tracks seen (uuid ∷ rest) {ts} e =
      elim (Bool-cases (is_taken seen uuid)) [
        | inl again ↦
            rw again (selected_ready-AreTracks error tracks seen rest (ground (arith, e, again)))
        | inr new ↦ elim (Option-cases (ready_track uuid_of is_ready tracks uuid)) [
          | inl missing ↦ absurd (ground (arith, e, new, missing))
          | inr (t, found) ↦
              let (others, more, last) =
                chosen->>= (selected_ready uuid_of is_ready error tracks (uuid ∷ seen) rest)
                  (λ others. chosen (t ∷ others)) (rw (selected_ready, new, found) at e) in
              rw new (
                subst
                  (λ (xs : List A).
                    AreTracks uuid_of is_ready (uuid ∷ distinct (uuid ∷ seen) rest) xs)
                  (same last)
                  (
                    ready_track-hit tracks uuid found,
                    selected_ready-AreTracks error tracks (uuid ∷ seen) rest more,
                  ))
        ]
      ]

single_audio-AreTracks :
    (audios : List Audio) (uuids : List String) {ts : List Audio}
    → single_audio audios uuids ≡ chosen ts
    → AreTracks audio_uuid audio_ready (distinct [] uuids) ts
unfolding single_audio count_where
single_audio-AreTracks audios [] h = absurd (cc)
single_audio-AreTracks audios (uuid ∷ []) {ts} h =
    elim (Option-cases (ready_track audio_uuid audio_ready audios uuid)) [
      | inl missing ↦ absurd (ground (arith, h, missing))
      | inr (t, found) ↦
          subst (λ (xs : List Audio). AreTracks audio_uuid audio_ready (uuid ∷ []) xs)
            (same audio_uuid audio_ready (rw (single_audio, found) at h))
            (ready_track-hit audio_uuid audio_ready audios uuid found, tt)
    ]
single_audio-AreTracks audios (uuid ∷ other ∷ more) h = absurd (cc)

no_subtitles :
    (uuids : List String)
    → ltb 0 (length uuids) ≡ false
    → AreTracks subtitle_uuid subtitle_ready (distinct [] uuids) []
no_subtitles [] h = tt
no_subtitles (uuid ∷ rest) h = absurd (ground (arith, h))

-- The quality has the name asked for, and is ready.
abbrev IsQuality : String → Quality → Type 0
IsQuality name q = (str_eq q.name name && q.ready) ≡ true

-- If ResolveSelection accepts a download that is not a stream, then the quality has the name asked for
-- and is ready, and the audios and the subtitles are those asked for: one for each distinct UUID, in
-- the order of the UUIDs, all of them ready.
pub resolve_selection-AreTracks :
    (source : Source) (name container : String) (custom : Bool)
    (audio_uuids subtitle_uuids : List String) {s : Selection}
    → resolve_selection source name container false custom audio_uuids subtitle_uuids ≡ chosen s
    → IsQuality name s.quality
      × AreTracks audio_uuid audio_ready (distinct [] audio_uuids) s.audios
      × AreTracks subtitle_uuid subtitle_ready (distinct [] subtitle_uuids) s.subtitles
unfolding resolve_selection
resolve_selection-AreTracks source name container custom audio_uuids subtitle_uuids {s} e =
    elim (Option-cases (first (λ (q : Quality). str_eq q.name name && q.ready) source.qualitys)) [
      | inl missing ↦ absurd (ground (arith, e, missing))
      | inr (q, found) ↦
          let quality =
            first-hit (λ (x : Quality). str_eq x.name name && x.ready) source.qualitys found in
          elim (Bool-cases custom) [
            | inr none_given ↦ absurd (ground (arith, e, found, none_given))
            | inl given ↦ elim (Bool-cases (str_eq container "mp4")) [
              | inl mp4 ↦ elim (Bool-cases (ltb 0 (length subtitle_uuids))) [
                | inl some_given ↦ absurd (ground (arith, e, found, given, mp4, some_given))
                | inr without ↦
                    let (audios, picked, last) =
                      chosen->>= (single_audio source.audios audio_uuids)
                        (λ audios. chosen (selection container q audios []))
                        (rw (resolve_selection, found, given, mp4, without) at e) in
                    result (ready last) quality
                      (single_audio-AreTracks source.audios audio_uuids picked)
                      (no_subtitles subtitle_uuids without)
              ]
              | inr other ↦ elim (Bool-cases (str_eq container "mkv")) [
                | inr unknown ↦ absurd (ground (arith, e, found, given, other, unknown))
                | inl mkv ↦
                    let (audios, heard, e₁) =
                      chosen->>=
                        (selected_ready audio_uuid audio_ready SelectionError.audio_unavailable
                          source.audios [] audio_uuids)
                        (λ _. _) (rw (resolve_selection, found, given, other, mkv) at e) in
                    let (subtitles, read, last) =
                      chosen->>=
                        (selected_ready subtitle_uuid subtitle_ready
                          SelectionError.subtitle_unavailable source.subtitles [] subtitle_uuids)
                        (λ _. _) e₁ in
                    result (ready last) quality
                      (selected_ready-AreTracks audio_uuid audio_ready
                        SelectionError.audio_unavailable source.audios [] audio_uuids heard)
                      (selected_ready-AreTracks subtitle_uuid subtitle_ready
                        SelectionError.subtitle_unavailable source.subtitles [] subtitle_uuids read)
              ]
            ]
          ]
    ]
  where
    ready : {a b : Selection} → ◌≡◌ {A = Selected Selection} (chosen a) (chosen b) → a ≡ b
    ready h = cc

    result :
        {q : Quality} {audios : List Audio} {subtitles : List Subtitle}
        → selection container q audios subtitles ≡ s
        → IsQuality name q
        → AreTracks audio_uuid audio_ready (distinct [] audio_uuids) audios
        → AreTracks subtitle_uuid subtitle_ready (distinct [] subtitle_uuids) subtitles
        → IsQuality name s.quality
          × AreTracks audio_uuid audio_ready (distinct [] audio_uuids) s.audios
          × AreTracks subtitle_uuid subtitle_ready (distinct [] subtitle_uuids) s.subtitles
    result same_selection quality audios subtitles =
        subst
          (λ (x : Selection).
            IsQuality name x.quality
            × AreTracks audio_uuid audio_ready (distinct [] audio_uuids) x.audios
            × AreTracks subtitle_uuid subtitle_ready (distinct [] subtitle_uuids) x.subtitles)
          same_selection (quality, audios, subtitles)
