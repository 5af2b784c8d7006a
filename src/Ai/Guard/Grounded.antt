-- ===== src/Ai/Guard/Grounded.antt =====
-- What the guard of app/ai/explain.py lets through.
use mathlib.Core.List.Memᴰ
use piggyon.Base.{
  ◌≡◌, refl, sym, ap, subst, ◌∙◌, ◌↔◌, ◌⊎◌, inl, inr, Bool, true, false, not, ◌||◌, Option, none,
  some, List, [], ◌∷◌, String, ◌==◌, eq_iff, Memᴰ, any, contains, contains→mem, mem→contains,
  Bool-cases,
}
use piggyon.Base.Lookups.{some_inj, some-ne-none}
use piggyon.Ai.Patterns.{
  CharTable, Claim, claims, search, starts, is_blank, claim_at, order_ids_in, entity_ids_in,
  tokens_in,
}
use piggyon.Ai.Guard.{
  Rejection, schema_vocabulary, Facts, is_foreign, reject_orders, reject_entities, is_part,
  reject_tokens, or_rejected, reject_claims, rejection_reason_for_text, unknown_order,
  foreign_order, unknown_entity, unknown_token, forbidden_claim, empty_text, is_known,
}

-- A sentence that claims nothing forbidden and names nothing but what the facts have.
pub record IsGrounded (table : CharTable) (facts : Facts) (scope : Option String)
    (sentence : String) : Type 0 where
  pub says_something : is_blank table sentence ≡ false
  pub no_claim : (claim : Claim) → search (claim_at table claim) sentence ≡ false
  pub known_orders :
      (id : String)
      → Memᴰ id (order_ids_in table sentence)
      → Memᴰ id facts.allowed_ids × ((only : String) → scope ≡ some only → id ≡ only)
  pub known_entities :
      (id : String)
      → Memᴰ id (entity_ids_in table sentence)
      → (starts "ORD-" id ≡ true) ⊎ Memᴰ id facts.entity_ids
  pub known_tokens :
      (token : String)
      → Memᴰ token (tokens_in table sentence)
      → Memᴰ token facts.allowed_codes
        ⊎ (Memᴰ token schema_vocabulary
            ⊎ ((id : String) × Memᴰ id (entity_ids_in table sentence) × (is_part token id ≡ true)))

or-cases : (a b : Bool) → (a || b) ≡ true → (a ≡ true) ⊎ (b ≡ true)
or-cases true b h = inl refl
or-cases false b h = inr h

not-false : (b : Bool) → not b ≡ false → b ≡ true
not-false true h = refl
not-false false h = cc

or_left : {a : Bool} (b : Bool) → a ≡ true → (a || b) ≡ true
or_left b h = rw h refl

or_right : (a : Bool) {b : Bool} → b ≡ true → (a || b) ≡ true
or_right true h = refl
or_right false h = h

any→mem :
    (test : String → Bool) (xs : List String)
    → any test xs ≡ true
    → (x : String) × Memᴰ x xs × (test x ≡ true)
unfolding any
any→mem test [] h = cc
any→mem test (x ∷ xs) h = elim (or-cases (test x) (any test xs) h) [
  | inl here ↦ (x, Memᴰ.head refl, here)
  | inr later ↦ let (y, m, t) = any→mem test xs later in (y, Memᴰ.tail m, t)
]

mem→any :
    (test : String → Bool) (xs : List String) (x : String)
    → Memᴰ x xs
    → test x ≡ true
    → any test xs ≡ true
unfolding any
mem→any test [] x m t = elim m [ ]
mem→any test (y ∷ ys) x (Memᴰ.head e) t = or_left (any test ys) (ap test (sym e) ∙ t)
mem→any test (y ∷ ys) x (Memᴰ.tail m) t = or_right (test y) (mem→any test ys x m t)

or_rejected-none : (o p : Option Rejection) → (or_rejected o p ≡ none) ↔ ((o ≡ none) × (p ≡ none))
or_rejected-none none p = (λ h. (refl, h), λ h. h.1)
or_rejected-none (some r) p = (λ h. cc, λ h. cc)

abbrev InScope : Option String → String → Type 0
InScope scope id = (only : String) → scope ≡ some only → id ≡ only

scoped_iff :
    (scope : Option String) (id : String) → (is_foreign scope id ≡ false) ↔ InScope scope id
scoped_iff none id = (λ h only e. cc, λ h. refl)
scoped_iff (some scope) id = (
  λ h only e. (eq_iff id scope).0 (not-false (id == scope) h) ∙ some_inj e,
  λ h. rw ((eq_iff id scope).1 (h scope refl)) refl,
)

reject_orders-none_iff :
    (allowed : List String) (scope : Option String) (ids : List String)
    → (reject_orders allowed scope ids ≡ none)
      ↔ ((id : String) → Memᴰ id ids → Memᴰ id allowed × InScope scope id)
unfolding reject_orders
reject_orders-none_iff allowed scope [] = (λ h id m. elim m [ ], λ h. refl)
reject_orders-none_iff allowed scope (x ∷ xs) = (
  λ h. elim (Bool-cases (contains x allowed)) [
    | inr unknown ↦ absurd (some-ne-none {x = unknown_order x} (rw unknown at h))
    | inl known ↦ elim (Bool-cases (is_foreign scope x)) [
      | inl foreign ↦ absurd (some-ne-none {x = foreign_order x} (rw (known, foreign) at h))
      | inr own ↦ λ id m. elim (Memᴰ.cases_cons m) [
        | inl here ↦
            subst (λ y. Memᴰ y allowed × InScope scope y) (sym here)
              (contains→mem x allowed known, (scoped_iff scope x).0 own)
        | inr later ↦ (reject_orders-none_iff allowed scope xs).0 (rw (known, own) at h) id later
      ]
    ]
  ],
  λ h.
      let (known, own) = h x (Memᴰ.head refl) in
      rw (mem→contains known) (
        rw ((scoped_iff scope x).1 own)
          ((reject_orders-none_iff allowed scope xs).1 (λ id m. h id (Memᴰ.tail m)))),
)

reject_entities-none_iff :
    (known : List String) (ids : List String)
    → (reject_entities known ids ≡ none)
      ↔ ((id : String) → Memᴰ id ids → (starts "ORD-" id ≡ true) ⊎ Memᴰ id known)
unfolding reject_entities
reject_entities-none_iff known [] = (λ h id m. elim m [ ], λ h. refl)
reject_entities-none_iff known (x ∷ xs) = (
  λ h. elim (Bool-cases (starts "ORD-" x || contains x known)) [
    | inr unknown ↦ absurd (some-ne-none {x = unknown_entity x} (rw unknown at h))
    | inl ok ↦ λ id m. elim (Memᴰ.cases_cons m) [
      | inl here ↦ elim (or-cases (starts "ORD-" x) (contains x known) ok) [
        | inl order ↦ inl (ap (starts "ORD-") here ∙ order)
        | inr entity ↦ inr (Memᴰ.cast here (contains→mem x known entity))
      ]
      | inr later ↦ (reject_entities-none_iff known xs).0 (rw ok at h) id later
    ]
  ],
  λ h.
      rw (passed (h x (Memᴰ.head refl)))
        ((reject_entities-none_iff known xs).1 (λ id m. h id (Memᴰ.tail m))),
)
  where
    passed : (starts "ORD-" x ≡ true) ⊎ Memᴰ x known → (starts "ORD-" x || contains x known) ≡ true
    passed (inl order) = or_left (contains x known) order
    passed (inr entity) = or_right (starts "ORD-" x) (mem→contains entity)

abbrev Known : List String → List String → String → Type 0
Known codes entities token =
    Memᴰ token codes
    ⊎ (Memᴰ token schema_vocabulary
        ⊎ ((id : String) × Memᴰ id entities × (is_part token id ≡ true)))

is_known_iff :
    (codes entities : List String) (token : String)
    → (is_known codes entities token ≡ true) ↔ Known codes entities token
is_known_iff codes entities token = (
  λ h. elim (or-cases (contains token codes) _ h) [
    | inl code ↦ inl (contains→mem token codes code)
    | inr more ↦ elim (or-cases (contains token schema_vocabulary) _ more) [
      | inl word ↦ inr (inl (contains→mem token schema_vocabulary word))
      | inr part ↦ inr (inr (any→mem (is_part token) entities part))
    ]
  ],
  closed,
)
  where
    closed : Known codes entities token → is_known codes entities token ≡ true
    closed (inl code) = or_left _ (mem→contains code)
    closed (inr (inl word)) = or_right (contains token codes) (or_left _ (mem→contains word))
    closed (inr (inr (id, m, part))) =
        or_right (contains token codes)
          (or_right (contains token schema_vocabulary) (mem→any (is_part token) entities id m part))

reject_tokens-none_iff :
    (codes entities tokens : List String)
    → (reject_tokens codes entities tokens ≡ none)
      ↔ ((token : String) → Memᴰ token tokens → Known codes entities token)
unfolding reject_tokens
reject_tokens-none_iff codes entities [] = (λ h token m. elim m [ ], λ h. refl)
reject_tokens-none_iff codes entities (x ∷ xs) = (
  λ h. elim (Bool-cases (is_known codes entities x)) [
    | inr unknown ↦ absurd (some-ne-none {x = unknown_token x} (rw unknown at h))
    | inl ok ↦ λ token m. elim (Memᴰ.cases_cons m) [
      | inl here ↦ subst (Known codes entities) (sym here) ((is_known_iff codes entities x).0 ok)
      | inr later ↦ (reject_tokens-none_iff codes entities xs).0 (rw ok at h) token later
    ]
  ],
  λ h.
      rw ((is_known_iff codes entities x).1 (h x (Memᴰ.head refl)))
        ((reject_tokens-none_iff codes entities xs).1 (λ token m. h token (Memᴰ.tail m))),
)

module _ (table : CharTable) where
  reject_claims-none_iff :
      (cs : List Claim) (sentence : String)
      → (reject_claims table cs sentence ≡ none)
        ↔ ((claim : Claim) → Memᴰ claim cs → search (claim_at table claim) sentence ≡ false)
  unfolding reject_claims
  reject_claims-none_iff [] sentence = (λ h claim m. elim m [ ], λ h. refl)
  reject_claims-none_iff (c ∷ cs) sentence = (
    λ h. elim (Bool-cases (search (claim_at table c) sentence)) [
      | inl made ↦ absurd (some-ne-none {x = forbidden_claim c} (rw made at h))
      | inr ok ↦ λ claim m. elim (Memᴰ.cases_cons m) [
        | inl here ↦ subst (λ d. search (claim_at table d) sentence ≡ false) (sym here) ok
        | inr later ↦ (reject_claims-none_iff cs sentence).0 (rw ok at h) claim later
      ]
    ],
    λ h.
        rw (h c (Memᴰ.head refl))
          ((reject_claims-none_iff cs sentence).1 (λ claim m. h claim (Memᴰ.tail m))),
  )

  -- every claim is among those that are searched for
  listed : (claim : Claim) → Memᴰ claim claims
  listed Claim.percentage = Memᴰ.head refl
  listed Claim.probability = Memᴰ.tail (Memᴰ.head refl)
  listed Claim.cost_saving = Memᴰ.tail (Memᴰ.tail (Memᴰ.head refl))
  listed Claim.carbon = Memᴰ.tail (Memᴰ.tail (Memᴰ.tail (Memᴰ.head refl)))
  listed Claim.guarantee = Memᴰ.tail (Memᴰ.tail (Memᴰ.tail (Memᴰ.tail (Memᴰ.head refl))))
  listed Claim.real_operation =
      Memᴰ.tail (Memᴰ.tail (Memᴰ.tail (Memᴰ.tail (Memᴰ.tail (Memᴰ.head refl)))))

  module _ (facts : Facts) (scope : Option String) (sentence : String) where
    abbrev verdict : Option Rejection
    verdict = rejection_reason_for_text table facts scope sentence

    opened : verdict ≡ none → IsGrounded table facts scope sentence
    unfolding rejection_reason_for_text
    opened h = elim (Bool-cases (is_blank table sentence)) [
      | inl blank ↦
          absurd (some-ne-none {x = empty_text} (rw (blank, rejection_reason_for_text) at h))
      | inr full ↦
          let (no_claims, more) =
            (or_rejected-none _ _).0 (rw (full, rejection_reason_for_text) at h) in
          let (no_orders, rest) = (or_rejected-none _ _).0 more in
          let (no_entities, no_tokens) = (or_rejected-none _ _).0 rest in
          record {
            says_something = full;
            no_claim =
                λ claim. (reject_claims-none_iff claims sentence).0 no_claims claim (listed claim);
            known_orders =
                (reject_orders-none_iff facts.allowed_ids scope (order_ids_in table sentence)).0
                  no_orders;
            known_entities =
                (reject_entities-none_iff facts.entity_ids (entity_ids_in table sentence)).0
                  no_entities;
            known_tokens =
                (reject_tokens-none_iff facts.allowed_codes (entity_ids_in table sentence)
                    (tokens_in table sentence)).0
                  no_tokens;
          }
    ]

    closed : IsGrounded table facts scope sentence → verdict ≡ none
    unfolding rejection_reason_for_text
    closed g =
        rw (g.says_something, rejection_reason_for_text)
          ((or_rejected-none _ _).1 (
            (reject_claims-none_iff claims sentence).1 (λ claim m. g.no_claim claim),
            (or_rejected-none _ _).1 (
              (reject_orders-none_iff facts.allowed_ids scope (order_ids_in table sentence)).1
                  g.known_orders,
              (or_rejected-none _ _).1 (
                (reject_entities-none_iff facts.entity_ids (entity_ids_in table sentence)).1
                    g.known_entities,
                (reject_tokens-none_iff facts.allowed_codes (entity_ids_in table sentence)
                      (tokens_in table sentence)).1
                    g.known_tokens,
              ),
            ),
          ))

    -- The guard lets a sentence through exactly if it says something, makes none of the forbidden
    -- claims, names only orders of the facts (and only the scope, where there is one) and entities
    -- of the facts, and each capitalised token is a reason code of the facts, a word of the schema
    -- or a part of an entity's id.
    pub rejection_reason_for_text-none_iff :
        (rejection_reason_for_text table facts scope sentence ≡ none)
        ↔ IsGrounded table facts scope sentence
    rejection_reason_for_text-none_iff = (opened, closed)
