-- ===== src/Directives/Splitting.antt =====
-- How a text is split at a separator and cut at one, and how a pair comes into the pairs so far.
use narrative_ai_agent.Prelude.{
  ℕ, ◌==◌, ◌≡◌, refl, Bool, true, false, none, some, [], ◌∷◌, ◌++◌, any, arith,
}
use narrative_ai_agent.Prelude.Text.{Text, text_eq, text_eq_refl}
use narrative_ai_agent.Prelude.Find.{split_on, cut_at}
use narrative_ai_agent.Directives.{Args, get, put}

abbrev pub holds : ℕ → Text → Bool
holds sep t = any (λ c. c == sep) t

pub split_on-plain : (sep : ℕ) (t : Text) → holds sep t ≡ false → split_on sep t ≡ t ∷ []
unfolding split_on
split_on-plain sep [] h = refl
split_on-plain sep (c ∷ t) h =
    let here : (c == sep) ≡ false = ground arith in
    let later : holds sep t ≡ false = ground arith in
    rw (split_on, here, split_on-plain sep t later) refl

pub split_on-sep :
    (sep : ℕ) (t rest : Text)
    → holds sep t ≡ false
    → split_on sep (t ++ (sep ∷ rest)) ≡ t ∷ split_on sep rest
unfolding split_on
split_on-sep sep [] rest h =
    let same : (sep == sep) ≡ true = ground arith in rw (split_on, same) refl
split_on-sep sep (c ∷ t) rest h =
    let here : (c == sep) ≡ false = ground arith in
    let later : holds sep t ≡ false = ground arith in
    rw (split_on, here, split_on-sep sep t rest later) refl

pub cut_at-sep :
    (sep : ℕ) (t rest : Text)
    → holds sep t ≡ false
    → cut_at sep (t ++ (sep ∷ rest)) ≡ (t, some rest)
unfolding cut_at
cut_at-sep sep [] rest h = let same : (sep == sep) ≡ true = ground arith in rw (cut_at, same) refl
cut_at-sep sep (c ∷ t) rest h =
    let here : (c == sep) ≡ false = ground arith in
    let later : holds sep t ≡ false = ground arith in
    rw (cut_at, here, cut_at-sep sep t rest later) refl

pub cut_at-plain : (sep : ℕ) (t : Text) → holds sep t ≡ false → cut_at sep t ≡ (t, none)
unfolding cut_at
cut_at-plain sep [] h = refl
cut_at-plain sep (c ∷ t) h =
    let here : (c == sep) ≡ false = ground arith in
    let later : holds sep t ≡ false = ground arith in
    rw (cut_at, here, cut_at-plain sep t later) refl

-- A key that is missing is missing behind the first entry.
pub missing_behind :
    (key k w : Text) (out : Args)
    → get key ((k, w) ∷ out) ≡ none
    → (text_eq k key ≡ false) × (get key out ≡ none)
unfolding get
missing_behind key k w out h = ground arith

pub get-behind :
    (key : Text) (v : Text) (out : Args)
    → get key out ≡ none
    → get key (out ++ ((key, v) ∷ [])) ≡ some v
unfolding get
get-behind key v [] h = rw (get, text_eq_refl key) refl
get-behind key v ((k, w) ∷ out) h =
    let (other, missing) = missing_behind key k w out h in
    rw (get, other) (get-behind key v out missing)

pub get-others :
    (key other v : Text) (out : Args)
    → get key out ≡ none
    → text_eq other key ≡ false
    → get key (out ++ ((other, v) ∷ [])) ≡ none
unfolding get
get-others key other v [] h differs = rw (get, differs) refl
get-others key other v ((k, w) ∷ out) h differs =
    let (here, missing) = missing_behind key k w out h in
    rw (get, here) (get-others key other v out missing differs)

pub put-behind :
    (key : Text) (v w : Text) (out : Args)
    → get key out ≡ none
    → put key w (out ++ ((key, v) ∷ [])) ≡ out ++ ((key, w) ∷ [])
unfolding put
put-behind key v w [] h = rw (put, text_eq_refl key) refl
put-behind key v w ((k, u) ∷ out) h =
    let (other, missing) = missing_behind key k u out h in
    rw (put, other, put-behind key v w out missing) refl

pub put-fresh :
    (key v : Text) (out : Args) → get key out ≡ none → put key v out ≡ out ++ ((key, v) ∷ [])
unfolding put
put-fresh key v [] h = refl
put-fresh key v ((k, u) ∷ out) h =
    let (other, missing) = missing_behind key k u out h in
    rw (put, other, put-fresh key v out missing) refl
