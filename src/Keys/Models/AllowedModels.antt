-- ===== src/Keys/Models/AllowedModels.antt =====
-- The list of models that a key may use: no duplicates, and every named model can be routed.
use drgtw.Base.{
  ◌≡◌, refl, sym, ap, ◌∙◌, inl, inr, Bytes, Bool, true, false, not, ◌&&◌, Option, List, [], ◌∷◌,
  arith, any, All, All-append, In, equal, equal_iff, Bool-cases,
}
use drgtw.Keys.Config.{Connection}
use drgtw.Keys.Pattern.{is_wildcard}
use drgtw.Keys.Auth.{ResolvedKey}
use drgtw.Keys.Models.Unique.{
  IsUnique, All-seen_cons, contains_self, not_contains, IsUnique-append, IsUnique-push,
}
use drgtw.Keys.Models.{
  serves_exactly, permitted, Listing, contains, push_exact, push_wildcard, wildcard_permitted,
  list_model, list_models, list_connections, list_allowlist, listing, allowed_models, or_none,
}

-- What the loops keep: a set of names `Exact` that the exact results come from, both result lists
-- without duplicates, and everything that was pushed is marked as seen.
module _ (Exact : Bytes → Type 0) where
  record Inv (l : Listing) : Type 0 where
    exact_named : All (λ m. (is_wildcard m ≡ false) × Exact m) l.exact_result
    wildcards : All (λ m. is_wildcard m ≡ true) l.wildcard_result
    exact_unique : IsUnique l.exact_result
    wildcard_unique : IsUnique l.wildcard_result
    exact_seen : All (λ m. contains l.seen m ≡ true) l.exact_result
    wildcard_seen : All (λ m. contains l.seen m ≡ true) l.wildcard_result

module _ (Exact : Bytes → Type 0) where
  push_exact-Inv :
      (m : Bytes) (l : Listing)
      → is_wildcard m ≡ false
      → Exact m
      → Inv Exact l
      → Inv Exact (push_exact m l)
  unfolding push_exact
  push_exact-Inv m l w x i = elim (Bool-cases (contains l.seen m)) [
    | inl old ↦ rw (old, push_exact) i
    | inr new ↦
        rw (new, push_exact)
          (record {
            exact_named = All-append _ l.exact_result (m ∷ []) i.exact_named ((w, x), tt);
            wildcards = i.wildcards;
            exact_unique =
                IsUnique-push m l.exact_result i.exact_unique
                  (not_contains m l.seen l.exact_result new i.exact_seen);
            wildcard_unique = i.wildcard_unique;
            exact_seen =
                All-append _ l.exact_result (m ∷ [])
                  (All-seen_cons m l.seen l.exact_result i.exact_seen) (contains_self m l.seen, tt);
            wildcard_seen = All-seen_cons m l.seen l.wildcard_result i.wildcard_seen;
          })
  ]

  push_wildcard-Inv :
      (m : Bytes) (l : Listing) → is_wildcard m ≡ true → Inv Exact l → Inv Exact (push_wildcard m l)
  unfolding push_wildcard
  push_wildcard-Inv m l w i = elim (Bool-cases (contains l.seen m)) [
    | inl old ↦ rw (old, push_wildcard) i
    | inr new ↦
        rw (new, push_wildcard)
          (record {
            exact_named = i.exact_named;
            wildcards = All-append _ l.wildcard_result (m ∷ []) i.wildcards (w, tt);
            exact_unique = i.exact_unique;
            wildcard_unique =
                IsUnique-push m l.wildcard_result i.wildcard_unique
                  (not_contains m l.seen l.wildcard_result new i.wildcard_seen);
            exact_seen = All-seen_cons m l.seen l.exact_result i.exact_seen;
            wildcard_seen =
                All-append _ l.wildcard_result (m ∷ [])
                  (All-seen_cons m l.seen l.wildcard_result i.wildcard_seen)
                  (contains_self m l.seen, tt);
          })
  ]

  list_model-Inv :
      (allowlist : Option (List Bytes)) (m : Bytes) (l : Listing)
      → (is_wildcard m ≡ false → permitted allowlist m ≡ true → Exact m)
      → Inv Exact l
      → Inv Exact (list_model allowlist m l)
  unfolding list_model
  list_model-Inv allowlist m l x i = elim (Bool-cases (is_wildcard m)) [
    | inl w ↦ elim (Bool-cases (wildcard_permitted allowlist m)) [
      | inl p ↦ rw (w, list_model) (rw p (push_wildcard-Inv m l w i))
      | inr p ↦ rw (w, list_model) (rw p i)
    ]
    | inr w ↦ elim (Bool-cases (permitted allowlist m)) [
      | inl p ↦ rw (w, list_model) (rw p (push_exact-Inv m l w (x w p) i))
      | inr p ↦ rw (w, list_model) (rw p i)
    ]
  ]

  list_allowlist-Inv :
      (ps : List Bytes) (l : Listing) → Inv Exact l → Inv Exact (list_allowlist ps l)
  unfolding list_allowlist
  list_allowlist-Inv [] l i = i
  list_allowlist-Inv (p ∷ ps) l i = elim (Bool-cases (is_wildcard p)) [
    | inl w ↦
        rw (w, list_allowlist)
          (list_allowlist-Inv ps (push_wildcard p l) (push_wildcard-Inv p l w i))
    | inr w ↦ rw (w, list_allowlist) (list_allowlist-Inv ps l i)
  ]

-- A named model of the list: permitted, and named by some connection.
abbrev pub IsNamed : ResolvedKey → Bytes → Type 0
IsNamed key m =
    (permitted key.model_allowlist m ≡ true) × (any (serves_exactly m) key.connections ≡ true)

any-In : {A : Type 0} (p : A → Bool) (x : A) (xs : List A) → In x xs → p x ≡ true → any p xs ≡ true
any-In p x [] i h = absurd i
any-In p x (y ∷ ys) (inl e) h = let here : p y ≡ true = ap p (sym e) ∙ h in ground arith
any-In p x (y ∷ ys) (inr i) h = let later = any-In p x ys i h in ground arith

module _ (key : ResolvedKey) where
  list_models-Inv :
      (c : Connection) (ms : List Bytes) (l : Listing)
      → In c key.connections
      → ((m : Bytes) → In m ms → In m c.models)
      → Inv (IsNamed key) l
      → Inv (IsNamed key) (list_models key.model_allowlist ms l)
  unfolding list_models serves_exactly
  list_models-Inv c [] l i sub v = v
  list_models-Inv c (m ∷ ms) l i sub v =
      list_models-Inv c ms (list_model key.model_allowlist m l) i (λ x j. sub x (inr j))
        (list_model-Inv (IsNamed key) key.model_allowlist m l
          (λ w p. (
            p,
            any-In (serves_exactly m) c key.connections i (
                any-In (λ x. not (is_wildcard x) && equal x m) m c.models (sub m (inl refl))
                  (ground (arith, equal_iff m m))),
          ))
          v)

  list_connections-Inv :
      (cs : List Connection) (l : Listing)
      → ((c : Connection) → In c cs → In c key.connections)
      → Inv (IsNamed key) l
      → Inv (IsNamed key) (list_connections key.model_allowlist cs l)
  unfolding list_connections
  list_connections-Inv [] l sub v = v
  list_connections-Inv (c ∷ cs) l sub v =
      list_connections-Inv cs (list_models key.model_allowlist c.models l) (λ x j. sub x (inr j))
        (list_models-Inv c c.models l (sub c (inl refl)) (λ m i. i) v)

  listing-Inv : Inv (IsNamed key) (listing key)
  unfolding listing
  listing-Inv = list_allowlist-Inv (IsNamed key) (or_none key.model_allowlist) _ (
      list_connections-Inv key.connections _ (λ c i. i)
        (record {
          exact_named = tt;
          wildcards = tt;
          exact_unique = tt;
          wildcard_unique = tt;
          exact_seen = tt;
          wildcard_seen = tt;
        }))

not_contains_wild :
    (x : Bytes) (ys : List Bytes)
    → is_wildcard x ≡ false
    → All (λ m. is_wildcard m ≡ true) ys
    → contains ys x ≡ false
unfolding contains
not_contains_wild x [] w k = refl
not_contains_wild x (y ∷ ys) w (k, ks) = elim (Bool-cases (equal y x)) [
  | inl e ↦
      let same : is_wildcard y ≡ is_wildcard x = ap is_wildcard ((equal_iff y x).0 e) in
      absurd (cc (same, k, w))
  | inr ne ↦ rw ne (not_contains_wild x ys w ks)
]

exact_not_wild :
    (key : ResolvedKey) (xs ys : List Bytes)
    → All (λ m. (is_wildcard m ≡ false) × IsNamed key m) xs
    → All (λ m. is_wildcard m ≡ true) ys
    → All (λ x. contains ys x ≡ false) xs
exact_not_wild key [] ys h k = tt
exact_not_wild key (x ∷ xs) ys ((w, _), h) k =
    (not_contains_wild x ys w k, exact_not_wild key xs ys h k)

-- No model or pattern is listed twice.
pub allowed_models-IsUnique : (key : ResolvedKey) → IsUnique (allowed_models key)
unfolding allowed_models
allowed_models-IsUnique key =
    let i = listing-Inv key in
    IsUnique-append (listing key).exact_result (listing key).wildcard_result i.exact_unique
      i.wildcard_unique
      (exact_not_wild key (listing key).exact_result (listing key).wildcard_result i.exact_named
        i.wildcards)
