-- ===== src/Storage/Links/Follows.antt =====
-- The device links at two times, with new and deleted ones.
use veritra.Prelude.{
  ◌≡◌, ap, ◌∙◌, String, Bool, true, false, List, [], ◌∷◌, ◌++◌, str_eq, if_cases, All, not,
}
use veritra.Prelude.Rows.{any, select, update, delete_rows}
use veritra.Storage.Links.State.{DeviceLink}
use veritra.Storage.Links.Moves.{Moves, Moves-same, Moves-trans}

-- No link of the list has one of these ids.
abbrev pub AreNew : List String → List DeviceLink → Type 0
AreNew used ws = All (λ (w : DeviceLink). any (str_eq w.id) used ≡ false) ws

-- The links at two times: those before, in their order, each at a later time or deleted, and after
-- them links whose ids were not in use before.
pub data Follows (used : List String) : List DeviceLink → List DeviceLink → Type 0 where
  added : (ws : List DeviceLink) → AreNew used ws → Follows used [] ws
  kept :
      {v w : DeviceLink} {vs ws : List DeviceLink}
      → Moves v w
      → Follows used vs ws
      → Follows used (v ∷ vs) (w ∷ ws)
  deleted :
      {v : DeviceLink} {vs ws : List DeviceLink} → Follows used vs ws → Follows used (v ∷ vs) ws

pub Follows-same : (used : List String) (vs : List DeviceLink) → Follows used vs vs
Follows-same used [] = added [] tt
Follows-same used (v ∷ vs) = kept (Moves-same v) (Follows-same used vs)

-- Ids that were in use before are in use later.
abbrev pub IsWithin : List String → List String → Type 0
IsWithin used later = (id : String) → any (str_eq id) later ≡ false → any (str_eq id) used ≡ false

-- Links under new ids only give way to links under new ids.
Follows-AreNew :
    (used later : List String) (vs ws : List DeviceLink)
    → IsWithin used later
    → AreNew used vs
    → Follows later vs ws
    → AreNew used ws
Follows-AreNew used later _ _ sub n (added [] m) = tt
Follows-AreNew used later _ _ sub n (added (w ∷ ws) m) =
    (sub w.id m.0, Follows-AreNew used later [] ws sub n (added ws m.1))
Follows-AreNew used later _ _ sub n (kept {v = v} {w = w} {vs = vs} {ws = ws} m f) =
    (ap (λ id. any (str_eq id) used) m.id ∙ n.0, Follows-AreNew used later vs ws sub n.1 f)
Follows-AreNew used later _ _ sub n (deleted {vs = vs} {ws = ws} f) =
    Follows-AreNew used later vs ws sub n.1 f

pub Follows-trans :
    (used later : List String) (us vs ws : List DeviceLink)
    → IsWithin used later
    → Follows used us vs
    → Follows later vs ws
    → Follows used us ws
Follows-trans used later _ vs ws sub (added _ n) g =
    added ws (Follows-AreNew used later vs ws sub n g)
Follows-trans used later _ _ ws sub (deleted {vs = us} {ws = vs} f) g =
    deleted (Follows-trans used later us vs ws sub f g)
Follows-trans used later _ _ _ sub (kept {vs = us} {ws = vs} m f) (kept {ws = ws} n g) =
    kept (Moves-trans _ _ _ m n) (Follows-trans used later us vs ws sub f g)
Follows-trans used later _ _ ws sub (kept {vs = us} {ws = vs} m f) (deleted g) =
    deleted (Follows-trans used later us vs ws sub f g)

pub append-Follows :
    (used : List String) (vs ws : List DeviceLink) → AreNew used ws → Follows used vs (vs ++ ws)
append-Follows used [] ws n = added ws n
append-Follows used (v ∷ vs) ws n = kept (Moves-same v) (append-Follows used vs ws n)

pub delete_rows-Follows :
    (used : List String) (p : DeviceLink → Bool) (vs : List DeviceLink)
    → Follows used vs (delete_rows p vs)
unfolding select
delete_rows-Follows used p [] = added [] tt
delete_rows-Follows used p (v ∷ vs) =
    if_cases (λ ws. Follows used (v ∷ vs) ws) (not (p v)) _ _
      (λ e. kept (Moves-same v) (delete_rows-Follows used p vs))
      (λ e. deleted (delete_rows-Follows used p vs))

pub update-Follows :
    (used : List String) (p : DeviceLink → Bool) (f : DeviceLink → DeviceLink)
    (vs : List DeviceLink)
    → ((v : DeviceLink) → p v ≡ true → Moves v (f v))
    → Follows used vs (update p f vs)
unfolding update
update-Follows used p f [] h = added [] tt
update-Follows used p f (v ∷ vs) h =
    kept (if_cases (Moves v) (p v) (f v) v (λ e. h v e) (λ e. Moves-same v))
      (update-Follows used p f vs h)
