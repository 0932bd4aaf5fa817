-- ===== src/AvCenter/Scenes.antt =====
-- Which streams are synchronised.
use multi_hardware.Base.{
  ℕ, ◌≤◌, ◌≡◌, refl, Bool, true, false, not, ◌&&◌, ◌||◌, List, [], ◌∷◌, Option, none, some, arith,
  ◌==◌, length, is_empty, if◌then◌else◌, ltb, ◌≢◌,
}
use multi_hardware.Base.Map.{is_some}
use multi_hardware.Base.Str.{Str, str_eq, str_beq_iff, str_beq}
use multi_hardware.Context.Defs.{set_has, set_insert}
use multi_hardware.AvCenter.SyncTypes.{
  scene_type_d_mic, scene_type_d_screen, scene_type_d_speaker, scene_type_d_camera_str,
  AvStreamInfo, SyncEnv,
}
use multi_hardware.AvCenter.SyncManager.{
  av_sync_stream_count, scene_types, add_group_info, merge_group_info_inner, group_info,
  merge_group_info,
}

-- A stream of a scene is among the streams.
abbrev pub has_scene : Str → List AvStreamInfo → Bool
has_scene scene [] = false
has_scene scene (stream ∷ streams) = (stream.scene_type == scene) || has_scene scene streams

set_has-scene_types :
    (scene : Str) (streams : List AvStreamInfo)
    → set_has scene (scene_types streams) ≡ has_scene scene streams
unfolding scene_types set_has set_insert
set_has-scene_types scene [] = refl
set_has-scene_types scene (stream ∷ streams) = ground (
  arith,
  set_has-scene_types scene streams,
  set_has-scene_types stream.scene_type streams,
  str_beq_iff stream.scene_type scene,
)

-- Two different texts are at least two texts.
two_texts :
    (s t : Str) (xs : List Str)
    → str_beq s t ≡ false
    → set_has s xs ≡ true
    → set_has t xs ≡ true
    → 2 ≤ length xs
unfolding set_has
two_texts s t [] ne h k = cc
two_texts s t (x ∷ []) ne h k = ground (arith, str_beq_iff x s, str_beq_iff x t, str_beq_iff s t)
two_texts s t (x ∷ y ∷ xs) ne h k = omega arith

-- The tests of MergeGroupInfo on their own.
tests_lem :
    (n : ℕ) (mic speaker screen camera : Bool) (info : Option Str)
    → (screen ≡ true → speaker ≡ true → 2 ≤ n)
    → (camera ≡ true → mic ≡ true → 2 ≤ n)
    → is_some info ≡ true
    → is_some (
        if ltb n av_sync_stream_count
        then none
        else if mic && speaker
        then none
        else if not (screen && speaker) && not (camera && mic)
        then none
        else info)
      ≡ (not (mic && speaker) && ((screen && speaker) || (camera && mic)))
tests_lem n mic speaker screen camera info wide high made = ground (arith, wide, high)

is_some-bind :
    (o : Option (List Str)) (next : List Str → Option (List Str))
    → o ≢ none
    → ((texts : List Str) → is_some (next texts) ≡ true)
    → is_some (elim o [ none ↦ none | some texts ↦ next texts ]) ≡ true
is_some-bind none next h k = absurd (h refl)
is_some-bind (some texts) next h k = k texts

module _ (env : SyncEnv) where
  added-ne-none :
      ((scene peer : Str) → is_some (env.master_text scene peer) ≡ true)
      → ((scene peer : Str) → is_some (env.slave_text scene peer) ≡ true)
      → (stream : AvStreamInfo) (texts : List Str) → add_group_info env stream texts ≢ none
  added-ne-none masters slaves stream texts = ground (
    arith,
    masters stream.scene_type stream.peer_dev_id,
    slaves stream.scene_type stream.peer_dev_id,
  )

  inner-is_some :
      ((scene peer : Str) → is_some (env.master_text scene peer) ≡ true)
      → ((scene peer : Str) → is_some (env.slave_text scene peer) ≡ true)
      → (streams : List AvStreamInfo) (texts : List Str)
      → is_some (merge_group_info_inner env streams texts) ≡ true
  unfolding merge_group_info_inner
  inner-is_some masters slaves [] texts = refl
  inner-is_some masters slaves (stream ∷ streams) texts =
      is_some-bind (add_group_info env stream texts) (merge_group_info_inner env streams)
        (added-ne-none masters slaves stream texts) (inner-is_some masters slaves streams)

  group_info-is_some :
      ((texts : List Str) → is_empty (env.group_text texts) ≡ false)
      → (texts : Option (List Str)) → is_some texts ≡ true
      → is_some (group_info env texts) ≡ true
  group_info-is_some groups none h = cc
  group_info-is_some groups (some texts) h = ground (arith, groups texts)

  -- Where the JSON library gives every text, the streams are merged to a group exactly if there is
  -- not both a microphone and a loudspeaker, and there is a screen with a loudspeaker or a camera
  -- with a microphone. The number of scenes makes no difference.
  pub merge_group_info-scenes :
      (streams : List AvStreamInfo)
      → ((scene peer : Str) → is_some (env.master_text scene peer) ≡ true)
      → ((scene peer : Str) → is_some (env.slave_text scene peer) ≡ true)
      → ((texts : List Str) → is_empty (env.group_text texts) ≡ false)
      → let mic = has_scene scene_type_d_mic streams in
        let speaker = has_scene scene_type_d_speaker streams in
        is_some (merge_group_info env streams) ≡ (
          not (mic && speaker)
          && ((has_scene scene_type_d_screen streams && speaker)
              || (has_scene scene_type_d_camera_str streams && mic)))
  unfolding merge_group_info str_beq
  merge_group_info-scenes streams masters slaves groups =
      rw
        (
          ← set_has-scene_types scene_type_d_mic streams,
          ← set_has-scene_types scene_type_d_speaker streams,
          ← set_has-scene_types scene_type_d_screen streams,
          ← set_has-scene_types scene_type_d_camera_str streams,
        )
        (tests_lem (length (scene_types streams)) _ _ _ _ _
          (two_texts scene_type_d_screen scene_type_d_speaker (scene_types streams) refl)
          (two_texts scene_type_d_camera_str scene_type_d_mic (scene_types streams) refl)
          (group_info-is_some groups _ (inner-is_some masters slaves streams [])))
