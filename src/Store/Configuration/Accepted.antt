-- ===== src/Store/Configuration/Accepted.antt =====
-- What a configuration that is accepted says of its options.
use mathlib.Core.Path.{subst}
use determa_state_rust.Prelude.{
  Bool, true, false, Option, none, some, List, [], ◌∷◌, ◌≡◌, ◌⊎◌, inl, inr, refl, sym, ap,
  if◌then◌else◌, Text, codes, text_is,
}
use determa_state_rust.Store.Retention.{ReceiptRetentionMode, OutboxRetentionMode}
use determa_state_rust.Store.Configuration.{
  Parsed, ok, refused, ◌>>=◌, split, split_once, rsplit_once, is_empty, is_given, names, sets,
  Gathered, receipt_mode, outbox_mode, add_adapter_option, add_pair, add_option, gather,
  Configuration, finish_with, nothing_gathered, parse_parts,
  parse_durable_store_configuration_with_options,
}

bind-ok :
    {A B : Type 0} (a : Parsed A) (f : A → Parsed B) (b : B)
    → (a >>= f) ≡ ok b
    → (x : A) × (a ≡ ok x) × (f x ≡ ok b)
bind-ok (ok x) f b h = (x, refl, h)
bind-ok (refused r) f b h = cc

if-ok :
    {A : Type 0} (b : Bool) (x y : Parsed A) (z : A)
    → (if b then x else y) ≡ ok z
    → ((b ≡ true) × (x ≡ ok z)) ⊎ ((b ≡ false) × (y ≡ ok z))
if-ok true x y z h = inl (refl, h)
if-ok false x y z h = inr (refl, h)

module _ (allowed : List Text) where
  -- Each option is one that the adapter allows, with a value, and none is given twice.
  abbrev pub AreAllowed : List (Text × Text) → Type 0
  AreAllowed [] = Unit
  AreAllowed (o ∷ l) =
      ((names o.0 allowed ≡ true) × (is_empty o.1 ≡ false) × (sets o.0 l ≡ false)) × AreAllowed l

  adapter_option-AreAllowed :
      (g g' : Gathered) (name value : Text)
      → names name allowed ≡ true
      → AreAllowed g.adapter_options
      → add_adapter_option g name value ≡ ok g'
      → AreAllowed g'.adapter_options
  unfolding add_adapter_option
  adapter_option-AreAllowed g g' name value listed a h = elim (if-ok (is_empty value) _ _ g' h) [
    | inl (e, k) ↦ cc
    | inr (e, k) ↦ elim (if-ok (sets name g.adapter_options) _ _ g' k) [
      | inl (d, l) ↦ cc
      | inr (d, l) ↦
          let same : (name, value) ∷ g.adapter_options ≡ g'.adapter_options =
            adapter_options_of l in
          subst (λ l. AreAllowed l) same ((listed, e, d), a)
    ]
  ]
    where
      adapter_options_of : {x y : Gathered} → ok x ≡ ok y → x.adapter_options ≡ y.adapter_options
      adapter_options_of e = cc

  mode_keeps :
      {A : Type 0} (g g' : Gathered) (parsed : Parsed A) (set : A → Gathered)
      → ((x : A) → (set x).adapter_options ≡ g.adapter_options)
      → AreAllowed g.adapter_options
      → (parsed >>= λ x. ok (set x)) ≡ ok g'
      → AreAllowed g'.adapter_options
  mode_keeps g g' parsed set keeps a h =
      let (x, e, k) = bind-ok parsed _ g' h in
      let same : set x ≡ g' = cc in
      rw (ap (λ (y : Gathered). y.adapter_options) (sym same)) (rw (keeps x) a)

  pair-AreAllowed :
      (g g' : Gathered) (name value : Text)
      → AreAllowed g.adapter_options
      → add_pair allowed g name value ≡ ok g'
      → AreAllowed g'.adapter_options
  unfolding add_pair
  pair-AreAllowed g g' name value a h =
      elim (if-ok (text_is name (codes "receipt_retention")) _ _ g' h) [
        | inl (_, k) ↦ elim (if-ok (is_given g.receipt_retention) _ _ g' k) [
          | inl (_, l) ↦ cc
          | inr (_, l) ↦ mode_keeps g g' (receipt_mode value) _ (λ x. refl) a l
        ]
        | inr (_, k) ↦ elim (if-ok (text_is name (codes "outbox_retention")) _ _ g' k) [
          | inl (_, l) ↦ elim (if-ok (is_given g.outbox_retention) _ _ g' l) [
            | inl (_, i) ↦ cc
            | inr (_, i) ↦ mode_keeps g g' (outbox_mode value) _ (λ x. refl) a i
          ]
          | inr (_, l) ↦ elim (if-ok (names name allowed) _ _ g' l) [
            | inl (listed, i) ↦ adapter_option-AreAllowed g g' name value listed a i
            | inr (_, i) ↦ cc
          ]
        ]
      ]

  option-AreAllowed :
      (g g' : Gathered) (o : Option (Text × Text))
      → AreAllowed g.adapter_options
      → add_option allowed g o ≡ ok g'
      → AreAllowed g'.adapter_options
  unfolding add_option
  option-AreAllowed g g' none a h = cc
  option-AreAllowed g g' (some (name, value)) a h = pair-AreAllowed g g' name value a h

  gather-AreAllowed :
      (options : List Text) (g g' : Gathered)
      → AreAllowed g.adapter_options
      → gather allowed options g ≡ ok g'
      → AreAllowed g'.adapter_options
  unfolding gather
  gather-AreAllowed [] g g' a h = let same : g ≡ g' = cc in rw same at a
  gather-AreAllowed (o ∷ options) g g' a h =
      let (x, e, k) = bind-ok (add_option allowed g (split_once b'=' o)) _ g' h in
      gather-AreAllowed options x g' (option-AreAllowed g x (split_once b'=' o) a e) k

  abbrev pub IsAccepted : Configuration → Type 0
  IsAccepted c = (is_empty c.0 ≡ false) × AreAllowed c.2

  finish_cases :
      (location : Text) (r : Option ReceiptRetentionMode) (o : Option OutboxRetentionMode)
      (options : List (Text × Text)) (c : Configuration)
      → finish_with location r o options ≡ ok c
      → (c.0 ≡ location) × (c.2 ≡ options)
  unfolding finish_with
  finish_cases location none o options c h = cc
  finish_cases location (some r) none options c h = cc
  finish_cases location (some r) (some o) options c h =
      let same : (location, record { receipt_retention = r; outbox_retention = o }, options) ≡ c =
        cc in
      (ap (λ d. d.0) (sym same), ap (λ d. d.2) (sym same))

  parse_parts-IsAccepted :
      (parts : Option (Text × Text)) (c : Configuration)
      → parse_parts allowed parts ≡ ok c
      → IsAccepted c
  unfolding parse_parts
  parse_parts-IsAccepted none c h = cc
  parse_parts-IsAccepted (some (location, options)) c h = elim (if-ok (is_empty location) _ _ c h) [
    | inl (_, k) ↦ cc
    | inr (e, k) ↦ elim (if-ok (is_empty options) _ _ c k) [
      | inl (_, l) ↦ cc
      | inr (_, l) ↦
          let (g, i, f) = bind-ok (gather allowed (split b'&' options) nothing_gathered) _ c l in
          let (at_location, its_options) =
            finish_cases location g.receipt_retention g.outbox_retention g.adapter_options c f in
          (
            rw at_location e,
            rw its_options (gather-AreAllowed (split b'&' options) nothing_gathered g tt i),
          )
    ]
  ]

-- A configuration that is accepted has a location that is not empty, and each of its adapter options is
-- one that the adapter allows, has a value that is not empty, and is given once.
pub parse-IsAccepted :
    (configuration : Text) (allowed : List Text) (c : Configuration)
    → parse_durable_store_configuration_with_options configuration allowed ≡ ok c
    → IsAccepted allowed c
unfolding parse_durable_store_configuration_with_options
parse-IsAccepted configuration allowed c h =
    parse_parts-IsAccepted allowed (rsplit_once b'#' configuration) c h
