-- ===== src/Ai/Explain/Served.antt =====
-- What `build_cards` of app/ai/explain.py serves.
use mathlib.Core.List.Memᴰ
use piggyon.Base.{
  ◌≡◌, refl, sym, ap, subst, ◌∙◌, ◌⊎◌, inl, inr, true, none, some, List, [], ◌∷◌, String, ◌==◌,
  eq_iff, Memᴰ, Bool-cases, Option-cases, IsUnique, unique_by_name,
}
use piggyon.Base.Dict.{Dict, get, put, get→mem}
use piggyon.Base.Lookups.{some-ne-none, put-same, put-cases, put_present}
use piggyon.Baseline.{OrderOutcome}
use piggyon.Planning.{Run}
use piggyon.Ai.Json.{
  Json, null, boolean, integer, real, text, array, object, JsonObject, str_at, get_or_null,
  is_hashable,
}
use piggyon.Ai.Patterns.{CharTable}
use piggyon.Ai.Guard.{Facts, rejection_reason_for_text}
use piggyon.Ai.Guard.Grounded.{IsGrounded, rejection_reason_for_text-none_iff}
use piggyon.Ai.Explain.{
  Card, Cards, badges, display_label, template_card, outcomes_of, ids_of, facts_of, put_templates,
  take_chars, Progress, sentence_of, generated_card, unmatched_with, named_card, read_card,
  read_cards, fall_back, fill, in_order, packed, build_cards,
}

mem-put :
    {V : Type 0} (k : String) (v : V) (d : Dict V) {e : String × V}
    → Memᴰ e (put k v d)
    → (e ≡ (k, v)) ⊎ Memᴰ e d
unfolding put
mem-put k v [] m = inl (Memᴰ.eq_of_singleton m)
mem-put k v ((j, w) ∷ d) m = elim (Bool-cases (j == k)) [
  | inl same ↦ elim (Memᴰ.cases_cons (rw same at m)) [
    | inl here ↦ inl (here ∙ ap (λ (i : String). (i, v)) ((eq_iff j k).0 same))
    | inr later ↦ inr (Memᴰ.tail later)
  ]
  | inr other ↦ elim (Memᴰ.cases_cons (rw other at m)) [
    | inl here ↦ inr (Memᴰ.head here)
    | inr later ↦ elim (mem-put k v d later) [ inl new ↦ inl new | inr old ↦ inr (Memᴰ.tail old) ]
  ]
]

-- Each template is of one of the outcomes.
mem-put_templates :
    (d : Dict Card) (os : List OrderOutcome) {e : String × Card}
    → Memᴰ e (put_templates d os)
    → Memᴰ e d ⊎ ((o : OrderOutcome) × Memᴰ o os × (e ≡ (o.order_id, template_card o)))
unfolding put_templates
mem-put_templates d [] m = inl m
mem-put_templates d (o ∷ os) m =
    elim (mem-put_templates (put o.order_id (template_card o) d) os m) [
      | inr (p, mp, e) ↦ inr (p, Memᴰ.tail mp, e)
      | inl before ↦ elim (mem-put o.order_id (template_card o) d before) [
        | inl own ↦ inr (o, Memᴰ.head refl, own)
        | inr old ↦ inl old
      ]
    ]

put_templates_present :
    (d : Dict Card) (os : List OrderOutcome) (id : String)
    → ((c : Card) × (get id d ≡ some c)) ⊎ Memᴰ id (ids_of os)
    → (c : Card) × (get id (put_templates d os) ≡ some c)
unfolding put_templates
put_templates_present d [] id (inl here) = here
put_templates_present d [] id (inr m) = elim m [ ]
put_templates_present d (o ∷ os) id (inl (c, e)) =
    put_templates_present (put o.order_id (template_card o) d) os id
      (inl (put_present o.order_id id (template_card o) d e))
put_templates_present d (o ∷ os) id (inr (Memᴰ.tail m)) =
    put_templates_present (put o.order_id (template_card o) d) os id (inr m)
put_templates_present d (o ∷ os) id (inr (Memᴰ.head e)) =
    put_templates_present (put o.order_id (template_card o) d) os id (
      inl (
        template_card o,
        ap (λ k. get k (put o.order_id (template_card o) d)) e
            ∙ put-same o.order_id id (template_card o) d,
      ))

-- The wording of a card is the model's, and grounded.
pub record IsWorded (table : CharTable) (printed : Json → String) (facts : Facts)
    (generated : List JsonObject) (id : String) (c : Card) : Type 0 where
  pub given : JsonObject
  pub is_given : Memᴰ given generated
  pub names_order : get_or_null "order_id" given ≡ text id
  pub headline_cut : c.headline ≡ take_chars 40 (str_at printed "headline" given)
  pub detail_kept : c.detail ≡ str_at printed "detail" given
  pub grounded : IsGrounded table facts (some id) (sentence_of table printed given)

-- What is served for an outcome: its own label and badges, and a wording that is the template's or
-- grounded.
pub record IsServed (table : CharTable) (printed : Json → String) (facts : Facts)
    (generated : List JsonObject) (o : OrderOutcome) (c : Card) : Type 0 where
  pub same_order : c.order_id ≡ o.order_id
  pub computed_label : c.display_label ≡ display_label o
  pub computed_badges : c.display_badges ≡ badges o.alternative_state
  pub worded : (c ≡ template_card o) ⊎ IsWorded table printed facts generated o.order_id c

-- One card for each outcome, in the outcomes' order.
pub data AllServed (table : CharTable) (printed : Json → String) (facts : Facts)
    (generated : List JsonObject) : List OrderOutcome → List Card → Type 0 where
  done : AllServed table printed facts generated [] []
  next :
      {o : OrderOutcome} {os : List OrderOutcome} {c : Card} {cs : List Card}
      → IsServed table printed facts generated o c
      → AllServed table printed facts generated os cs
      → AllServed table printed facts generated (o ∷ os) (c ∷ cs)

module _ (table : CharTable) (printed : Json → String) (facts : Facts) (generated : List JsonObject)
    (outcomes : List OrderOutcome) where
  abbrev templates : Dict Card
  templates = put_templates [] outcomes

  abbrev OfOutcome : String → Card → Type 0
  OfOutcome id c =
      (o : OrderOutcome) × Memᴰ o outcomes
      × (o.order_id ≡ id)
      × IsServed table printed facts generated o c

  abbrev AllOfOutcomes : Progress → Type 0
  AllOfOutcomes p = (id : String) (c : Card) → get id p.cards ≡ some c → OfOutcome id c

  template-IsServed :
      (o : OrderOutcome) → IsServed table printed facts generated o (template_card o)
  template-IsServed o = record {
    same_order = refl;
    computed_label = refl;
    computed_badges = refl;
    worded = inl refl;
  }

  template_of :
      (id : String) (c : Card)
      → Memᴰ (id, c) templates
      → (o : OrderOutcome) × Memᴰ o outcomes × (o.order_id ≡ id) × (c ≡ template_card o)
  template_of id c m = elim (mem-put_templates [] outcomes m) [
    | inl impossible ↦ absurd (Memᴰ.not-nil impossible)
    | inr (o, mo, e) ↦
        (o, mo, sym (ap (λ (x : String × Card). x.0) e), ap (λ (x : String × Card). x.1) e)
  ]

  put-AllOfOutcomes :
      (d : Dict Card) (id : String) (c : Card)
      → OfOutcome id c
      → ((j : String) (e : Card) → get j d ≡ some e → OfOutcome j e)
      → (j : String) (e : Card) → get j (put id c d) ≡ some e
      → OfOutcome j e
  put-AllOfOutcomes d id c ok h j e found = elim (put-cases id j c d found) [
    | inl (same, is_new) ↦ subst (OfOutcome j) (sym is_new) (subst (λ k. OfOutcome k c) same ok)
    | inr (other, old) ↦ h j e old
  ]

  generated-OfOutcome :
      (id : String) (computed : Card) (given : JsonObject)
      → Memᴰ (id, computed) templates
      → Memᴰ given generated
      → get_or_null "order_id" given ≡ text id
      → rejection_reason_for_text table facts (some id) (sentence_of table printed given) ≡ none
      → OfOutcome id (generated_card table printed id computed given)
  generated-OfOutcome id computed given m is_given names ok =
      let (o, mo, same, e) = template_of id computed m in
      (
        o,
        mo,
        same,
        record {
          same_order = sym same;
          computed_label = ap (λ (c : Card). c.display_label) e;
          computed_badges = ap (λ (c : Card). c.display_badges) e;
          worded = inr (
              subst
                (λ k.
                  IsWorded table printed facts generated k
                    (generated_card table printed id computed given))
                (sym same)
                (record {
                  given = given;
                  is_given = is_given;
                  names_order = names;
                  headline_cut = refl;
                  detail_kept = refl;
                  grounded =
                      (rejection_reason_for_text-none_iff table facts (some id)
                          (sentence_of table printed given)).0
                        ok;
                }));
        },
      )

  named_card-AllOfOutcomes :
      (given : JsonObject) (id : String) (p : Progress)
      → Memᴰ given generated
      → get_or_null "order_id" given ≡ text id
      → AllOfOutcomes p
      → AllOfOutcomes (named_card table printed facts templates given id p)
  unfolding named_card
  named_card-AllOfOutcomes given id p is_given names h = elim (Option-cases (get id templates)) [
    | inl absent ↦ rw (absent, named_card) h
    | inr (computed, present) ↦ elim (Option-cases (get id p.cards)) [
      | inr (c, seen) ↦ rw (present, named_card) (rw (seen, named_card) h)
      | inl unseen ↦
          elim (Option-cases
            (rejection_reason_for_text table facts (some id) (sentence_of table printed given))) [
              | inr (reason, rejected) ↦
                  rw (present, named_card) (rw (unseen, named_card) (rw (rejected, named_card) h))
              | inl ok ↦
                  rw (present, named_card)
                    (rw (unseen, named_card)
                      (rw (ok, named_card)
                        (put-AllOfOutcomes p.cards id
                          (generated_card table printed id computed given)
                          (generated-OfOutcome id computed given (get→mem id templates present)
                            is_given names ok)
                          h)))
            ]
    ]
  ]

  read_card_total :
      (given : JsonObject) (p : Progress) (id : Json)
      → get_or_null "order_id" given ≡ id
      → is_hashable id ≡ true
      → Memᴰ given generated
      → AllOfOutcomes p
      → (q : Progress) × (read_card table printed facts templates given p ≡ some q)
        × AllOfOutcomes q
  unfolding read_card
  read_card_total given p (array xs) e hashable m h = cc
  read_card_total given p (object d) e hashable m h = cc
  read_card_total given p (text id) e hashable m h = (
    named_card table printed facts templates given id p,
    rw (e, read_card) refl,
    named_card-AllOfOutcomes given id p m e h,
  )
  read_card_total given p null e hashable m h =
      (unmatched_with table printed (printed null) p, rw (e, read_card) refl, h)
  read_card_total given p (boolean b) e hashable m h =
      (unmatched_with table printed (printed (boolean b)) p, rw (e, read_card) refl, h)
  read_card_total given p (integer k) e hashable m h =
      (unmatched_with table printed (printed (integer k)) p, rw (e, read_card) refl, h)
  read_card_total given p (real r) e hashable m h =
      (unmatched_with table printed (printed (real r)) p, rw (e, read_card) refl, h)

  read_cards_total :
      (cards : List JsonObject) (p : Progress)
      → ((g : JsonObject)
          → Memᴰ g cards
          → Memᴰ g generated × (is_hashable (get_or_null "order_id" g) ≡ true))
      → AllOfOutcomes p
      → (q : Progress) × (read_cards table printed facts templates cards p ≡ some q)
        × AllOfOutcomes q
  unfolding read_cards
  read_cards_total [] p ok h = (p, refl, h)
  read_cards_total (g ∷ gs) p ok h =
      let (m, hashable) = ok g (Memᴰ.head refl) in
      let (q, read, hq) = read_card_total g p (get_or_null "order_id" g) refl hashable m h in
      let (r, rest, hr) = read_cards_total gs q (λ x mx. ok x (Memᴰ.tail mx)) hq in
      (r, rw (read, read_cards) rest, hr)

  -- The second loop keeps what is there and adds templates.
  fill-AllOfOutcomes :
      (d : Dict Card) (p : Progress)
      → ((id : String) (c : Card) → Memᴰ (id, c) d → Memᴰ (id, c) templates)
      → AllOfOutcomes p
      → AllOfOutcomes (fill table printed d p)
  unfolding fill
  fill-AllOfOutcomes [] p within h = h
  fill-AllOfOutcomes ((id, computed) ∷ d) p within h = elim (Option-cases (get id p.cards)) [
    | inr (c, seen) ↦ rw (seen, fill) (fill-AllOfOutcomes d p (λ j e m. within j e (Memᴰ.tail m)) h)
    | inl unseen ↦
        let (o, mo, same, e) = template_of id computed (within id computed (Memᴰ.head refl)) in
        rw (unseen, fill)
          (fill-AllOfOutcomes d (fall_back table printed id computed p)
            (λ j c m. within j c (Memᴰ.tail m))
            (put-AllOfOutcomes p.cards id computed
              (
                o,
                mo,
                same,
                subst (IsServed table printed facts generated o) (sym e) (template-IsServed o),
              )
              h))
  ]

  fill_keeps :
      (d : Dict Card) (p : Progress) (id : String)
      → (c : Card) × (get id p.cards ≡ some c)
      → (c : Card) × (get id (fill table printed d p).cards ≡ some c)
  unfolding fill
  fill_keeps [] p id here = here
  fill_keeps ((j, computed) ∷ d) p id (c, e) = elim (Option-cases (get j p.cards)) [
    | inr (seen_card, seen) ↦ rw (seen, fill) (fill_keeps d p id (c, e))
    | inl unseen ↦
        rw (unseen, fill)
          (fill_keeps d (fall_back table printed j computed p) id
            (put_present j id computed p.cards e))
  ]

  fill_present :
      (d : Dict Card) (p : Progress) (id : String) (t : Card)
      → Memᴰ (id, t) d
      → (c : Card) × (get id (fill table printed d p).cards ≡ some c)
  unfolding fill
  fill_present [] p id t m = elim m [ ]
  fill_present ((j, computed) ∷ d) p id t (Memᴰ.tail m) = elim (Option-cases (get j p.cards)) [
    | inr (c, seen) ↦ rw (seen, fill) (fill_present d p id t m)
    | inl unseen ↦ rw (unseen, fill) (fill_present d (fall_back table printed j computed p) id t m)
  ]
  fill_present ((j, computed) ∷ d) p id t (Memᴰ.head e) = elim (Option-cases (get j p.cards)) [
    | inr (c, seen) ↦
        rw (seen, fill)
          (fill_keeps d p id (c, ap (λ (x : String × Card). get x.0 p.cards) e ∙ seen))
    | inl unseen ↦
        rw (unseen, fill)
          (fill_keeps d (fall_back table printed j computed p) id (
            computed,
            ap (λ (x : String × Card). get x.0 (put j computed p.cards)) e
                ∙ put-same j id computed p.cards,
          ))
  ]

  -- The list of the cards, read from a dictionary that has one for each outcome.
  in_order_total :
      (os : List OrderOutcome) (d : Dict Card)
      → IsUnique (ids_of outcomes)
      → ((o : OrderOutcome)
          → Memᴰ o os
          → Memᴰ o outcomes × ((c : Card) × (get o.order_id d ≡ some c)))
      → ((id : String) (c : Card) → get id d ≡ some c → OfOutcome id c)
      → (cs : List Card) × (in_order table printed os d ≡ some cs)
        × AllServed table printed facts generated os cs
  unfolding in_order
  in_order_total [] d unique there h = ([], refl, AllServed.done)
  in_order_total (o ∷ os) d unique there h =
      let (mo, (c, found)) = there o (Memᴰ.head refl) in
      let (q, mq, same, served) = h o.order_id c found in
      let own : q ≡ o =
        unique_by_name (λ (x : OrderOutcome). x.order_id) outcomes unique mq mo same in
      let (cs, rest, all) = in_order_total os d unique (λ x mx. there x (Memᴰ.tail mx)) h in
      (
        c ∷ cs,
        rw (found, in_order) (rw (rest, in_order) refl),
        AllServed.next
            (subst (λ (x : OrderOutcome). IsServed table printed facts generated x c) own served)
            all,
      )

-- Let the run's outcomes be of different orders, and let the model have given a list of cards, none
-- of which names its order by a list or a dictionary. Then cards are built: one for each order of the
-- run, in the run's order, with the order's own label and badges. The wording is the template's, or
-- the model's for that order: its detail, and the first 40 characters of its headline, where the guard
-- let the whole headline and the detail pass together. The cut headline is not read by the guard.
pub build_cards-AllServed :
    (table : CharTable) (printed : Json → String) (run : Run) (generated : List JsonObject)
    → IsUnique (ids_of (outcomes_of run))
    → ((g : JsonObject) → Memᴰ g generated → is_hashable (get_or_null "order_id" g) ≡ true)
    → (r : Cards) × (build_cards table printed run (some generated) ≡ some r)
      × AllServed table printed (facts_of run) generated (outcomes_of run) r.cards
unfolding build_cards get
build_cards-AllServed table printed run generated unique hashable =
    let facts = facts_of run in
    let outcomes = outcomes_of run in
    let (p, read, good) =
      read_cards_total table printed facts generated outcomes generated
        (record { cards = []; replaced = []; rejections = []; unmatched = [] })
        (λ g m. (m, hashable g m)) (λ id c e. absurd (some-ne-none {x = c} (sym e))) in
    let filled = fill table printed (put_templates [] outcomes) p in
    let (cs, listed, all) =
      in_order_total table printed facts generated outcomes outcomes filled.cards unique
        (λ o m.
          let (t, present) =
            put_templates_present [] outcomes o.order_id
              (inr (Memᴰ.map (λ (x : OrderOutcome). x.order_id) m)) in
          (
            m,
            fill_present table printed facts generated outcomes (put_templates [] outcomes) p
                o.order_id t (get→mem o.order_id (put_templates [] outcomes) present),
          ))
        (fill-AllOfOutcomes table printed facts generated outcomes (put_templates [] outcomes) p
          (λ id c m. m) good) in
    (
      packed table printed outcomes filled cs,
      rw (read, build_cards) (rw (listed, build_cards) refl),
      all,
    )
