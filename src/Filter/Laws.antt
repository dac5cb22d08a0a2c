-- ===== src/Filter/Laws.antt =====
-- What `RegionFilter` of src/core/filter.cc lets through.
use data_race_detectors.Base.{
  ℕ, ◌+◌, ◌≤◌, ◌<◌, ◌^◌, ◌≡◌, refl, Bool, false, not, ◌&&◌, ◌||◌, none, [], ◌∷◌, ltb, leb, erase,
  arith,
}
use data_race_detectors.Filter.{Regions, region_before, filter}

-- Regions that are not empty, do not overlap and end below 2 ^ 64, in order from `lo`.
abbrev pub IsRegions : ℕ → Regions → Type 0
IsRegions lo [] = Unit
IsRegions lo ((start, size) ∷ m) =
    (lo ≤ start) × (1 ≤ size) × (start + size < 2 ^ 64) × IsRegions (start + size) m

-- Whether some region holds the address.
unfoldable pub watched : ℕ → Regions → Bool
watched addr [] = false
watched addr ((start, size) ∷ m) = (leb start addr && ltb addr (start + size)) || watched addr m

watched_below : (addr lo : ℕ) (m : Regions) → IsRegions lo m → addr < lo → watched addr m ≡ false
unfolding watched
watched_below addr lo [] r h = refl
watched_below addr lo ((start, size) ∷ m) r h =
    ground (arith, watched_below addr (start + size) m r.3)

region_before_below :
    (addr lo : ℕ) (m : Regions) → IsRegions lo m → addr < lo → region_before addr m ≡ none
unfolding region_before
region_before_below addr lo [] r h = refl
region_before_below addr lo ((start, size) ∷ m) r h = ground arith

-- For regions in order that are not empty, do not overlap and end below 2 ^ 64, Filter drops an
-- access exactly when no region holds its address.
pub filter-watched :
    (addr lo : ℕ) (m : Regions) → IsRegions lo m → filter addr m ≡ not (watched addr m)
unfolding filter watched
filter-watched addr lo [] r = refl
filter-watched addr lo ((start, size) ∷ m) r = ground (
  arith,
  filter-watched addr (start + size) m r.3,
  region_before_below addr (start + size) m r.3,
  watched_below addr (start + size) m r.3,
)

IsRegions-mono : (lo hi : ℕ) (m : Regions) → lo ≤ hi → IsRegions hi m → IsRegions lo m
IsRegions-mono lo hi [] h r = tt
IsRegions-mono lo hi ((start, size) ∷ m) h r = (omega arith, r.1, r.2, r.3)

pub IsRegions-erase : (addr lo : ℕ) (m : Regions) → IsRegions lo m → IsRegions lo (erase addr m)
unfolding erase
IsRegions-erase addr lo [] r = tt
IsRegions-erase addr lo ((start, size) ∷ m) r = ground (
  arith,
  IsRegions-erase addr (start + size) m r.3,
  IsRegions-mono lo (start + size) (erase addr m),
)
