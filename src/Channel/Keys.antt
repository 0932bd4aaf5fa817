-- ===== src/Channel/Keys.antt =====
-- The keys of sessions, and the names of the two ends of one.
use multi_hardware.Base.{
  ◌≡◌, ◌≢◌, refl, Bool, true, false, ◌&&◌, ◌||◌, List, [], ◌∷◌, ◌++◌, Option, none, some, arith,
  ◌==◌, nat_eq, Option-cases, inl, inr,
}
use multi_hardware.Base.Map.{Map, lookup}
use multi_hardware.Base.Str.{Str, str_eq, str_beq, str_beq_iff}
use multi_hardware.Capability.Key.{starts_with}
use multi_hardware.Channel.Names.{
  join_names, local_to_peer_session_name_map, find_sess_name_by_peer_sess_name, contains,
}
use multi_hardware.Channel.Adapter.{insert_key, keys_with}

-- The byte '_' occurs.
abbrev pub has_underscore : Str → Bool
has_underscore [] = false
has_underscore (c ∷ s) = (c == b'_') || has_underscore s

has_underscore-join_names : (s t : Str) → has_underscore (join_names s t) ≡ true
has_underscore-join_names [] t = refl
has_underscore-join_names (c ∷ s) t = ground (arith, has_underscore-join_names s t)

-- Device ids without '_', and any session names: different pairs have different keys.
pub join_names-injective :
    (s d t e : Str)
    → has_underscore d ≡ false
    → has_underscore e ≡ false
    → join_names s d ≡ join_names t e
    → (s ≡ t) × (d ≡ e)
join_names-injective [] d [] e p q h = ground arith
join_names-injective [] d (y ∷ t) e p q h = ground (arith, has_underscore-join_names t e)
join_names-injective (x ∷ s) d [] e p q h = ground (arith, has_underscore-join_names s d)
join_names-injective (x ∷ s) d (y ∷ t) e p q h = ground (arith, join_names-injective s d t e)

starts_with-append : (s t : Str) → starts_with s (s ++ t) ≡ true
unfolding starts_with
starts_with-append [] t = refl
starts_with-append (c ∷ s) t = ground (arith, starts_with-append s t)

contains-starts_with : (part s : Str) → starts_with part s ≡ true → contains part s ≡ true
unfolding contains
contains-starts_with part [] h = h
contains-starts_with part (c ∷ s) h = ground arith

pub contains-join_names : (s d : Str) → contains s (join_names s d) ≡ true
contains-join_names s d = contains-starts_with s (join_names s d) (starts_with-append s (b'_' ∷ d))

abbrev is_text : Option Str → Str → Bool
is_text none t = false
is_text (some s) t = s == t

-- Each value of the entries has its key as its own value in the whole map.
are_mutual : Map Str Str → Map Str Str → Bool
are_mutual m [] = true
are_mutual m ((key, value) ∷ entries) = is_text (lookup value m) key && are_mutual m entries

is_text-some : (o : Option Str) (t : Str) → is_text o t ≡ true → o ≡ some t
is_text-some none t h = cc
is_text-some (some s) t h = ground (arith, str_beq_iff s t)

mutual_of :
    (m entries : Map Str Str) (key value : Str)
    → are_mutual m entries ≡ true
    → lookup key entries ≡ some value
    → lookup value m ≡ some key
unfolding lookup are_mutual
mutual_of m [] key value h e = cc
mutual_of m ((k, v) ∷ entries) key value h e =
    ground (arith, str_beq_iff k key, is_text-some (lookup v m) k, mutual_of m entries key value)

session_names_mutual :
    are_mutual local_to_peer_session_name_map local_to_peer_session_name_map ≡ true
unfolding local_to_peer_session_name_map lookup str_beq are_mutual
session_names_mutual = refl

-- The names of the two ends of a session lead to each other: of a name that has a peer's name, that
-- is the peer's name of the peer's name.
pub find_sess_name-find_sess_name :
    (name : Str)
    → find_sess_name_by_peer_sess_name name ≢ []
    → find_sess_name_by_peer_sess_name (find_sess_name_by_peer_sess_name name) ≡ name
unfolding find_sess_name_by_peer_sess_name
find_sess_name-find_sess_name name h =
    elim (Option-cases (lookup name local_to_peer_session_name_map)) [
      | inl e ↦ ground (arith, e)
      | inr (value, e) ↦
          let back =
            mutual_of local_to_peer_session_name_map local_to_peer_session_name_map name value
              session_names_mutual e in
          rw (e, back) refl
    ]

abbrev pub is_in : Str → List Str → Bool
is_in key [] = false
is_in key (other ∷ keys) = (other == key) || is_in key keys

is_in-insert_key :
    (key other : Str) (keys : List Str)
    → is_in key (insert_key other keys) ≡ (other == key) || is_in key keys
is_in-insert_key key other [] = refl
is_in-insert_key key other (k ∷ keys) = ground (arith, is_in-insert_key key other keys)

pub is_in-keys_with {ℓ} :
    {V : Type ℓ} (test : Str → V → Bool) (key : Str) (value : V) (m : Map Str V)
    → lookup key m ≡ some value
    → test key value ≡ true
    → is_in key (keys_with test m) ≡ true
unfolding lookup keys_with
is_in-keys_with test key value [] e h = cc
is_in-keys_with test key value ((k, v) ∷ m) e h = ground (
  arith,
  str_beq_iff k key,
  is_in-insert_key key k (keys_with test m),
  is_in-keys_with test key value m,
)
