-- ===== src/Search/InOrder.antt =====
-- Filling a set or a map in the order of its elements keeps them as they are.
use mathlib.Core.List.{append_assoc, append-nil}
use data_race_detectors.Base.{
  ℕ, suc, ◌≤◌, ◌<◌, ◌≡◌, refl, sym, ◌∙◌, [], ◌∷◌, ◌++◌, Map, insert, From, arith,
}
use data_race_detectors.Lockset.{Lockset, add}
use data_race_detectors.Program.{Action}
use data_race_detectors.Search.{ActionInfo, info_of, infos}

module _ {ℓ} {V : Type ℓ} where
  abbrev pub KeysBelow : ℕ → Map V → Type 0
  KeysBelow k [] = Unit
  KeysBelow k ((j, v) ∷ m) = (j < k) × KeysBelow k m

  pub insert_last : (k : ℕ) (v : V) (m : Map V) → KeysBelow k m → insert k v m ≡ m ++ (k, v) ∷ []
  unfolding insert
  insert_last k v [] h = refl
  insert_last k v ((j, w) ∷ m) h = ground (arith, insert_last k v m h.1)

  pub KeysBelow-push :
      (k j : ℕ) (v : V) (m : Map V) → j < k → KeysBelow j m → KeysBelow k (m ++ (j, v) ∷ [])
  KeysBelow-push k j v [] h b = (h, tt)
  KeysBelow-push k j v ((i, w) ∷ m) h b = (omega arith, KeysBelow-push k j v m h b.1)

  pub KeysBelow-mono : (j k : ℕ) (m : Map V) → j ≤ k → KeysBelow j m → KeysBelow k m
  KeysBelow-mono j k [] h b = tt
  KeysBelow-mono j k ((i, w) ∷ m) h b = (omega arith, KeysBelow-mono j k m h b.1)

abbrev pub AllBelow : ℕ → Lockset → Type 0
AllBelow k [] = Unit
AllBelow k (a ∷ s) = (a < k) × AllBelow k s

pub add_last : (k : ℕ) (s : Lockset) → AllBelow k s → add k s ≡ s ++ k ∷ []
unfolding add
add_last k [] h = refl
add_last k (a ∷ s) h = ground (arith, add_last k s h.1)

pub AllBelow-push : (k j : ℕ) (s : Lockset) → j < k → AllBelow j s → AllBelow k (s ++ j ∷ [])
AllBelow-push k j [] h b = (h, tt)
AllBelow-push k j (a ∷ s) h b = (omega arith, AllBelow-push k j s h b.1)

pub AllBelow-mono : (j k : ℕ) (s : Lockset) → j ≤ k → AllBelow j s → AllBelow k s
AllBelow-mono j k [] h b = tt
AllBelow-mono j k (a ∷ s) h b = (omega arith, AllBelow-mono j k s h b.1)

abbrev pub map_infos : Map Action → Map ActionInfo
map_infos [] = []
map_infos ((t, a) ∷ es) = (t, info_of a) ∷ map_infos es

infos-append :
    (lo : ℕ) (es : Map Action) (m : Map ActionInfo)
    → From lo es
    → KeysBelow lo m
    → infos es m ≡ m ++ map_infos es
unfolding infos
infos-append lo [] m f b = sym (append-nil m)
infos-append lo ((t, a) ∷ es) m f b =
    let b' = KeysBelow-mono lo t m f.0 b in
    rw (insert_last t (info_of a) m b') (
      infos-append (suc t) es (m ++ (t, info_of a) ∷ []) f.1
        (KeysBelow-push (suc t) t (info_of a) m (omega arith) b')
      ∙ append_assoc m ((t, info_of a) ∷ []) (map_infos es))

pub infos_lem : (es : Map Action) → From 0 es → infos es [] ≡ map_infos es
infos_lem es f = infos-append 0 es [] f tt
