-- ===== src/Keys/OldKey.antt =====
-- The key of an old configuration that state is taken from: `enumerate().find(..)` by the secret, in
-- `rebuild_from` of crates/drgtw-keys/src/lib.rs.
use drgtw.Base.{ℕ, suc, ◌≤◌, ◌≡◌, refl, ap, ◌∙◌, Bytes, some, List, ◌∷◌, arith, get_elem?}
use drgtw.Keys.Config.{VirtualKey}

module _ {Usd : Type 0} where
  -- The key at the index has the secret, and no key before it has.
  pub record IsFirst (secret : Bytes) (keys : List (VirtualKey Usd)) (i : ℕ) : Type 0 where
    pub holder : VirtualKey Usd
    pub found : get_elem? keys i ≡ some holder
    pub has_secret : holder.key ≡ secret
    pub none_before :
        (j : ℕ) (vk : VirtualKey Usd) → get_elem? keys j ≡ some vk → vk.key ≡ secret → i ≤ j

  pub IsFirst-head :
      (secret : Bytes) (vk : VirtualKey Usd) (keys : List (VirtualKey Usd)) (i : ℕ)
      → IsFirst secret (vk ∷ keys) i
      → vk.key ≡ secret
      → i ≡ 0
  IsFirst-head secret vk keys i h e = let l = h.none_before 0 vk refl e in omega arith

  pub IsFirst-zero :
      (secret : Bytes) (vk : VirtualKey Usd) (keys : List (VirtualKey Usd))
      → IsFirst secret (vk ∷ keys) 0
      → vk.key ≡ secret
  IsFirst-zero secret vk keys h =
      let same : vk ≡ h.holder = cc h.found in
      ap (λ (k : VirtualKey Usd). k.key) same ∙ h.has_secret

  pub IsFirst-tail :
      (secret : Bytes) (vk : VirtualKey Usd) (keys : List (VirtualKey Usd)) (i : ℕ)
      → IsFirst secret (vk ∷ keys) (suc i)
      → IsFirst secret keys i
  IsFirst-tail secret vk keys i h = record {
    holder = h.holder;
    found = h.found;
    has_secret = h.has_secret;
    none_before = λ j k at e. let l = h.none_before (suc j) k at e in omega arith;
  }
