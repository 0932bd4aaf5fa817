-- ===== src/AvCenter/Streams.antt =====
-- Streams that are added and removed, and the order of the streams.
use multi_hardware.Base.{
  ◌≡◌, refl, sym, Bool, true, false, ◌||◌, List, [], ◌∷◌, ◌++◌, Option, none, some, arith, ◌==◌,
  length, Bool-cases, inl, inr, ap, ◌∙◌, ◌+◌, ◌⊎◌, if◌then◌else◌, nat_eq,
}
use multi_hardware.Base.Str.{Str, str_eq, str_beq_iff, str_ltb, str_ltb_total}
use multi_hardware.AvCenter.SyncTypes.{
  scene_type_d_mic, scene_type_d_screen, scene_type_d_speaker, scene_type_d_camera_str,
  AvStreamInfo, SyncEnv,
}
use multi_hardware.Context.Defs.{set_has, set_insert}
use multi_hardware.AvCenter.SyncManager.{
  insert_text, scene_types, is_master, is_slave, insert_json, add_group_info,
  merge_group_info_inner, merge_group_info,
}

str_ltb_irrefl : (s : Str) → str_ltb s s ≡ false
unfolding str_ltb
str_ltb_irrefl [] = refl
str_ltb_irrefl (x ∷ xs) = ground (arith, str_ltb_irrefl xs)

str_ltb_trans : (s t u : Str) → str_ltb s t ≡ true → str_ltb t u ≡ true → str_ltb s u ≡ true
unfolding str_ltb
str_ltb_trans [] [] u p q = cc
str_ltb_trans [] (y ∷ ys) [] p q = cc
str_ltb_trans [] (y ∷ ys) (z ∷ zs) p q = refl
str_ltb_trans (x ∷ xs) [] u p q = cc
str_ltb_trans (x ∷ xs) (y ∷ ys) [] p q = cc
str_ltb_trans (x ∷ xs) (y ∷ ys) (z ∷ zs) p q = ground (arith, str_ltb_trans xs ys zs)

insert_text-if :
    (s : Str) (b : Bool) (xs ys : List Str)
    → insert_text s (if b then xs else ys) ≡ (if b then insert_text s xs else insert_text s ys)
insert_text-if s true xs ys = refl
insert_text-if s false xs ys = refl

pub insert_text_comm :
    (s t : Str) (texts : List Str)
    → insert_text s (insert_text t texts) ≡ insert_text t (insert_text s texts)
unfolding insert_text
insert_text_comm s t [] = ground (arith, str_ltb_total s t, str_ltb_trans s t s, str_ltb_irrefl s)
insert_text_comm s t (u ∷ us) = ground (
  arith,
  insert_text_comm s t us,
  insert_text-if s (str_ltb u t) (u ∷ insert_text t us)
      (if str_ltb t u then t ∷ u ∷ us else u ∷ us),
  insert_text-if s (str_ltb t u) (t ∷ u ∷ us) (u ∷ us),
  insert_text-if t (str_ltb u s) (u ∷ insert_text s us)
      (if str_ltb s u then s ∷ u ∷ us else u ∷ us),
  insert_text-if t (str_ltb s u) (s ∷ u ∷ us) (u ∷ us),
  str_ltb_total s t,
  str_ltb_total s u,
  str_ltb_total t u,
  str_ltb_irrefl s,
  str_ltb_irrefl t,
  str_ltb_irrefl u,
  str_ltb_trans s t s,
  str_ltb_trans s u s,
  str_ltb_trans t u t,
  str_ltb_trans s t u,
  str_ltb_trans t s u,
  str_ltb_trans s u t,
  str_ltb_trans t u s,
  str_ltb_trans u s t,
  str_ltb_trans u t s,
)

-- What is read of a set of texts.
record SameSet (xs ys : List Str) : Type 0 where
  has : (s : Str) → set_has s xs ≡ set_has s ys
  size : length xs ≡ length ys

set_has-set_insert :
    (s t : Str) (xs : List Str) → set_has s (set_insert t xs) ≡ ((t == s) || set_has s xs)
unfolding set_has set_insert
set_has-set_insert s t xs = ground (arith, str_beq_iff t s)

length-set_insert :
    (t : Str) (xs : List Str)
    → length (set_insert t xs) ≡ (if set_has t xs then length xs else length xs + 1)
unfolding set_insert
length-set_insert t xs = ground arith

set_insert-SameSet :
    (t : Str) (xs ys : List Str) → SameSet xs ys → SameSet (set_insert t xs) (set_insert t ys)
set_insert-SameSet t xs ys same = record {
  has = λ s. ground (arith, set_has-set_insert s t xs, set_has-set_insert s t ys, same.has s);
  size = ground (arith, length-set_insert t xs, length-set_insert t ys, same.has t, same.size);
}

set_insert-swap :
    (s t : Str) (xs : List Str)
    → SameSet (set_insert s (set_insert t xs)) (set_insert t (set_insert s xs))
set_insert-swap s t xs = record {
  has = λ u. ground (
    arith,
    set_has-set_insert u s (set_insert t xs),
    set_has-set_insert u t (set_insert s xs),
    set_has-set_insert u t xs,
    set_has-set_insert u s xs,
  );
  size = ground (
    arith,
    length-set_insert s (set_insert t xs),
    length-set_insert t (set_insert s xs),
    length-set_insert s xs,
    length-set_insert t xs,
    set_has-set_insert s t xs,
    set_has-set_insert t s xs,
    str_beq_iff s t,
    str_beq_iff t s,
  );
}

scene_types-swap :
    (before after : List AvStreamInfo) (a b : AvStreamInfo)
    → SameSet (scene_types (before ++ a ∷ b ∷ after)) (scene_types (before ++ b ∷ a ∷ after))
unfolding scene_types
scene_types-swap [] after a b = set_insert-swap a.scene_type b.scene_type (scene_types after)
scene_types-swap (x ∷ before) after a b =
    set_insert-SameSet x.scene_type _ _ (scene_types-swap before after a b)

abbrev bind_texts : Option (List Str) → (List Str → Option (List Str)) → Option (List Str)
bind_texts none next = none
bind_texts (some texts) next = next texts

bind_texts-ext :
    (o : Option (List Str)) (next other : List Str → Option (List Str))
    → ((texts : List Str) → next texts ≡ other texts)
    → bind_texts o next ≡ bind_texts o other
bind_texts-ext none next other h = refl
bind_texts-ext (some texts) next other h = h texts

bind_texts-elim :
    (o : Option (List Str)) (next : List Str → Option (List Str))
    → elim o [ none ↦ none | some texts ↦ next texts ] ≡ bind_texts o next
bind_texts-elim none next = refl
bind_texts-elim (some texts) next = refl

bind_texts-some :
    (o : Option Str) (texts : List Str)
    → bind_texts (insert_json o texts) some ≡ insert_json o texts
bind_texts-some none texts = refl
bind_texts-some (some s) texts = refl

bind_texts_assoc :
    (o : Option (List Str)) (next other : List Str → Option (List Str))
    → bind_texts (bind_texts o next) other ≡ bind_texts o (λ texts. bind_texts (next texts) other)
bind_texts_assoc none next other = refl
bind_texts_assoc (some texts) next other = refl

insert_json_comm :
    (o p : Option Str) (texts : List Str)
    → bind_texts (insert_json o texts) (insert_json p)
      ≡ bind_texts (insert_json p texts) (insert_json o)
insert_json_comm none none texts = refl
insert_json_comm none (some t) texts = refl
insert_json_comm (some s) none texts = refl
insert_json_comm (some s) (some t) texts = ap some (insert_text_comm t s texts)

module _ (env : SyncEnv) where
  -- A stream gives one text, or is passed over.
  Adds : AvStreamInfo → Type 0
  Adds stream =
      ((o : Option Str) × ((texts : List Str)
          → add_group_info env stream texts ≡ insert_json o texts))
      ⊎ ((texts : List Str) → add_group_info env stream texts ≡ some texts)

  adds : (stream : AvStreamInfo) → Adds stream
  unfolding Adds
  adds stream = elim (Bool-cases (is_master stream.scene_type)) [
    | inl e ↦ inl (env.master_text stream.scene_type stream.peer_dev_id, λ texts. rw e refl)
    | inr e ↦ elim (Bool-cases (is_slave stream.scene_type)) [
      | inl k ↦ inl (env.slave_text stream.scene_type stream.peer_dev_id, λ texts. rw (e, k) refl)
      | inr k ↦ inr (λ texts. rw (e, k) refl)
    ]
  ]

  add_comm :
      (a b : AvStreamInfo) (texts : List Str)
      → Adds a
      → Adds b
      → bind_texts (add_group_info env a texts) (add_group_info env b)
        ≡ bind_texts (add_group_info env b texts) (add_group_info env a)
  unfolding Adds
  add_comm a b texts (inl (o, f)) (inl (p, g)) =
      rw (f texts, g texts)
        (bind_texts-ext (insert_json o texts) (add_group_info env b) (insert_json p) g
          ∙ insert_json_comm o p texts
          ∙ sym (bind_texts-ext (insert_json p texts) (add_group_info env a) (insert_json o) f))
  add_comm a b texts (inl (o, f)) (inr g) =
      rw (f texts, g texts)
        (bind_texts-ext (insert_json o texts) (add_group_info env b) some g
          ∙ bind_texts-some o texts
          ∙ sym (f texts))
  add_comm a b texts (inr f) (inl (p, g)) =
      rw (f texts, g texts)
        (sym (bind_texts-some p texts)
          ∙ sym (bind_texts-ext (insert_json p texts) (add_group_info env a) some f))
  add_comm a b texts (inr f) (inr g) = rw (f texts, g texts) (sym (f texts))

  inner-step :
      (a : AvStreamInfo) (streams : List AvStreamInfo) (texts : List Str)
      → merge_group_info_inner env (a ∷ streams) texts
        ≡ bind_texts (add_group_info env a texts) (merge_group_info_inner env streams)
  unfolding merge_group_info_inner
  inner-step a streams texts =
      bind_texts-elim (add_group_info env a texts) (merge_group_info_inner env streams)

  two_steps :
      (a b : AvStreamInfo) (after : List AvStreamInfo) (texts : List Str)
      → merge_group_info_inner env (a ∷ b ∷ after) texts
        ≡ bind_texts
            (bind_texts (add_group_info env a texts) (add_group_info env b))
            (merge_group_info_inner env after)
  two_steps a b after texts =
      inner-step a (b ∷ after) texts
      ∙ bind_texts-ext (add_group_info env a texts) _ _ (inner-step b after)
      ∙ sym (
          bind_texts_assoc (add_group_info env a texts) (add_group_info env b)
            (merge_group_info_inner env after))

  inner-swap :
      (before after : List AvStreamInfo) (a b : AvStreamInfo) (texts : List Str)
      → merge_group_info_inner env (before ++ a ∷ b ∷ after) texts
        ≡ merge_group_info_inner env (before ++ b ∷ a ∷ after) texts
  inner-swap [] after a b texts =
      two_steps a b after texts
      ∙ ap (λ o. bind_texts o (merge_group_info_inner env after))
          (add_comm a b texts (adds a) (adds b))
      ∙ sym (two_steps b a after texts)
  inner-swap (x ∷ before) after a b texts =
      inner-step x (before ++ a ∷ b ∷ after) texts
      ∙ bind_texts-ext (add_group_info env x texts) _ _ (inner-swap before after a b)
      ∙ sym (inner-step x (before ++ b ∷ a ∷ after) texts)

  -- The group that is merged from the streams does not depend on their order: two neighbours may be
  -- exchanged anywhere, also where the JSON library fails for some of them.
  pub merge_group_info-swap :
      (before after : List AvStreamInfo) (a b : AvStreamInfo)
      → merge_group_info env (before ++ a ∷ b ∷ after)
        ≡ merge_group_info env (before ++ b ∷ a ∷ after)
  unfolding merge_group_info
  merge_group_info-swap before after a b =
      let same = scene_types-swap before after a b in
      rw
        (
          same.size,
          same.has scene_type_d_mic,
          same.has scene_type_d_speaker,
          same.has scene_type_d_screen,
          same.has scene_type_d_camera_str,
          inner-swap before after a b [],
        )
        refl
