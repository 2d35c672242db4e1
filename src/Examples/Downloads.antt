-- ===== src/Examples/Downloads.antt =====
-- A concrete download: two audio tracks, one of them asked for twice.
use videocms.Base.{◌≡◌, refl, true, false, [], ◌∷◌, first, count_where}
use videocms.Download.{
  Quality, Audio, Subtitle, Source, resolve_selection, selected_ready, ready_track, audio_uuid,
  audio_ready, subtitle_uuid, subtitle_ready, selection,
}
use videocms.Download.Tracks.{AreTracks, distinct, resolve_selection-AreTracks}

abbrev english : Audio
english = record { uuid = "en"; ready = true }

abbrev german : Audio
german = record { uuid = "de"; ready = true }

abbrev captions : Subtitle
captions = record { uuid = "cc"; ready = true }

abbrev quality : Quality
quality = record { name = "720p"; ready = true }

abbrev film : Source
film = record {
  qualitys = quality ∷ [];
  audios = english ∷ german ∷ record { uuid = "fr"; ready = false } ∷ [];
  subtitles = captions ∷ [];
}

resolve_selection-AreTracks_example :
    (quality.ready ≡ true)
    × AreTracks audio_uuid audio_ready
        (distinct [] ("de" ∷ "en" ∷ "de" ∷ []))
        (german ∷ english ∷ [])
    × AreTracks subtitle_uuid subtitle_ready (distinct [] ("cc" ∷ [])) (captions ∷ [])
unfolding resolve_selection selected_ready ready_track first count_where
resolve_selection-AreTracks_example =
    resolve_selection-AreTracks film "720p" "mkv" true ("de" ∷ "en" ∷ "de" ∷ []) ("cc" ∷ [])
      {s = selection "mkv" quality (german ∷ english ∷ []) (captions ∷ [])} refl
