-- ===== src/Router/Route.antt =====
-- routeModel of packages/model-router/src/index.ts: the model and the reason that it returns.
use verity_os_v.Base.{
  ◌≤◌, Str, Bool, true, false, ◌&&◌, List, [], ◌∷◌, Option, some, find?, any, ltb_iff, All, Member,
  All-Member, Member-All, Bool-cases, Option-cases, ◌≡◌, ◌⊎◌, inl, inr, refl, sym, ap, ◌∙◌, subst,
  arith,
}
use verity_os_v.Contracts.{confidential, local, classification_rank}
use verity_os_v.Command.Rows.{ModelRow, CommandDb, Surroundings}
use verity_os_v.Command.Policy.{is_cloud}
use verity_os_v.Router.{
  deploy_rank, RouteInput, ModelRouteResult, is_deny, is_private, route_policy, local_required,
  eligible_models, locals, or_model, choose, no_model, selected, route_model,
}
use verity_os_v.Router.Choice.{
  Ranked, IsFit, eligible-All, Fit-Member, eligible-Ranked, is_local_sound,
}

-- A model of the list with the least deployment rank.
record IsLeast (m : ModelRow) (models : List ModelRow) : Type 0 where
  member : Member m models
  least : All (λ y. deploy_rank m.deployment_type ≤ deploy_rank y.deployment_type) models

first-IsLeast :
    (first : ModelRow) (rest : List ModelRow) → Ranked (first ∷ rest) → IsLeast first (first ∷ rest)
first-IsLeast first rest h = record { member = inl refl; least = (omega arith, h.0) }

find?-Member :
    (p : ModelRow → Bool) (models : List ModelRow) (m : ModelRow)
    → find? p models ≡ some m
    → Member m models × (p m ≡ true)
find?-Member p [] m h = cc
find?-Member p (x ∷ xs) m h = elim (Bool-cases (p x)) [
  | inl e ↦ let same : x ≡ m = ground (arith) in (inl (sym same), subst (λ y. p y ≡ true) same e)
  | inr e ↦ let (k, t) = find?-Member p xs m (ground (arith)) in (inr k, t)
]

local-IsLeast :
    (first : ModelRow) (rest : List ModelRow)
    → Ranked (first ∷ rest)
    → IsLeast (or_model (find? locals (first ∷ rest)) first) (first ∷ rest)
unfolding or_model
local-IsLeast first rest h = elim (Option-cases (find? locals (first ∷ rest))) [
  | inl e ↦ rw e (first-IsLeast first rest h)
  | inr (m, e) ↦
      let (k, t) = find?-Member locals (first ∷ rest) m e in
      let zero_rank : deploy_rank m.deployment_type ≡ 0 =
        ap deploy_rank (is_local_sound m.deployment_type t) ∙ (unfold deploy_rank in refl) in
      rw e (record {
        member = k;
        least = Member-All _ (first ∷ rest) (λ y _. omega (arith, zero_rank));
      })
]

choose-IsLeast :
    (needs prefers : Bool) (first : ModelRow) (rest : List ModelRow)
    → Ranked (first ∷ rest)
    → IsLeast ((choose needs prefers first rest).0) (first ∷ rest)
unfolding choose
choose-IsLeast true prefers first rest h = local-IsLeast first rest h
choose-IsLeast false prefers first rest h =
    elim (Bool-cases (prefers && any locals (first ∷ rest))) [
      | inl e ↦ rw e (local-IsLeast first rest h)
      | inr e ↦ rw e (elim (Bool-cases (is_private first.deployment_type)) [
        | inl p ↦ rw p (first-IsLeast first rest h)
        | inr p ↦ rw p (elim (Bool-cases (is_cloud first.deployment_type)) [
          | inl c ↦ rw c (first-IsLeast first rest h)
          | inr c ↦ rw c (first-IsLeast first rest h)
        ])
      ])
    ]

-- The result names a fit model, of the least deployment rank that a fit model has.
pub record IsRouted (around : Surroundings) (db : CommandDb) (input : RouteInput)
    (result : ModelRouteResult) : Type 0 where
  pub model : ModelRow
  pub fit : IsFit around db input model
  pub id_is : result.model_id ≡ some model.id
  pub provider_is : result.provider ≡ some model.provider
  pub deployment_is : result.deployment_type ≡ some model.deployment_type
  pub least :
      (m : ModelRow)
      → IsFit around db input m
      → deploy_rank model.deployment_type ≤ deploy_rank m.deployment_type

chosen-IsRouted :
    (around : Surroundings) (db : CommandDb) (input : RouteInput) (version : Option Str)
    (first : ModelRow) (rest : List ModelRow)
    → eligible_models around db input ≡ first ∷ rest
    → IsRouted around db input (
        selected version
          (choose (local_required around db input) input.request.prefer_local first rest))
unfolding selected
chosen-IsRouted around db input version first rest e =
    let ranked = subst Ranked e (eligible-Ranked around db input) in
    let least =
      choose-IsLeast (local_required around db input) input.request.prefer_local first rest
        ranked in
    let fits = subst (All (IsFit around db input)) e (eligible-All around db input) in
    record {
      model = (choose (local_required around db input) input.request.prefer_local first rest).0;
      fit = All-Member _ _ (first ∷ rest) fits least.member;
      id_is = refl;
      provider_is = refl;
      deployment_is = refl;
      least = λ m f.
          All-Member
            (λ y.
              deploy_rank
                (choose (local_required around db input) input.request.prefer_local first
                  rest).0.deployment_type
              ≤ deploy_rank y.deployment_type)
            m (first ∷ rest) least.least (subst (Member m) e (Fit-Member around db input m f));
    }

List-cases {ℓ} :
    {A : Type ℓ} (xs : List A) → (xs ≡ []) ⊎ ((x : A) × (rest : List A) × (xs ≡ x ∷ rest))
List-cases [] = inl refl
List-cases (x ∷ xs) = inr (x, xs, refl)

module _ (around : Surroundings) (db : CommandDb) (input : RouteInput) where
  -- A request that is routed gets a registered, enabled model of its organization that takes its
  -- classification, risk and capabilities, that is local where the data must stay, and that no fit
  -- model beats on the deployment rank.
  pub route-IsRouted :
      (id : Str)
      → (route_model around db input).model_id ≡ some id
      → IsRouted around db input (route_model around db input)
  unfolding route_model no_model
  route-IsRouted id h = elim (Bool-cases (is_deny (route_policy around db input).decision)) [
    | inl denied ↦ absurd (ground (arith))
    | inr open_to ↦ elim (List-cases (eligible_models around db input)) [
      | inl e ↦ absurd (ground (arith))
      | inr (first, rest, e) ↦
          rw (open_to, e)
            (chosen-IsRouted around db input (route_policy around db input).policy_version first
              rest e)
    ]
  ]

  -- A request that the policy does not deny is routed as soon as one model is fit for it.
  pub route_complete :
      (m : ModelRow)
      → is_deny (route_policy around db input).decision ≡ false
      → IsFit around db input m
      → (id : Str) × ((route_model around db input).model_id ≡ some id)
  unfolding route_model selected
  route_complete m open_to f =
      let k = Fit-Member around db input m f in
      elim (List-cases (eligible_models around db input)) [
        | inl e ↦ absurd (subst (Member m) e k)
        | inr (first, rest, e) ↦ rw (open_to, e) (_, refl)
      ]

  -- Data above `internal` is processed locally or not at all.
  pub route-confidential :
      (id : Str)
      → classification_rank confidential ≤ classification_rank input.request.data_classification
      → (route_model around db input).model_id ≡ some id
      → (route_model around db input).deployment_type ≡ some local
  unfolding local_required
  route-confidential id high h =
      let r = route-IsRouted id h in
      let stays : local_required around db input ≡ true = ground (
        arith,
        ltb_iff (classification_rank input.request.data_classification)
            (classification_rank confidential),
      ) in
      r.deployment_is ∙ ap some (r.fit.stays_local stays)
