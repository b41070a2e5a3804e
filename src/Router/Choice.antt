-- ===== src/Router/Choice.antt =====
-- The models that routeModel of packages/model-router/src/index.ts chooses from, and their order.
use verity_os_v.Base.{
  ℕ, ◌≤◌, str_eq, str_eq_iff, insert_by, sort_by, sort-All, sort-All_back, Bool, true, false, not,
  List, [], ◌∷◌, any, select, ltb_iff, includes, All, Member, All-Member, Member-All, Bool-cases,
  ◌≡◌, ◌↔◌, inl, inr, refl, arith,
}
use verity_os_v.Contracts.{DeploymentType, local, cloud, risk_rank}
use verity_os_v.Command.Rows.{ModelRow, CommandDb, Surroundings}
use verity_os_v.Command.Policy.{has_class, is_cloud}
use verity_os_v.Router.{
  deploy_rank, list_models, RouteInput, is_local, local_required, cloud_denied, is_eligible,
  model_lt, eligible_models,
}

-- The rank of the deployment never falls along the list.
abbrev pub Ranked : List ModelRow → Type 0
Ranked [] = Unit
Ranked (x ∷ xs) =
    All (λ y. deploy_rank x.deployment_type ≤ deploy_rank y.deployment_type) xs × Ranked xs

select-both :
    {A : Type 0} (P : A → Type 0) (p : A → Bool) (xs : List A)
    → All P xs
    → All (λ a. P a × (p a ≡ true)) (select p xs)
select-both P p [] h = tt
select-both P p (x ∷ xs) h = elim (Bool-cases (p x)) [
  | inl e ↦ rw e ((h.0, e), select-both P p xs h.1)
  | inr e ↦ rw e (select-both P p xs h.1)
]

Member-select :
    (p : ModelRow → Bool) (m : ModelRow) (xs : List ModelRow)
    → Member m xs
    → p m ≡ true
    → Member m (select p xs)
Member-select p m [] h e = absurd h
Member-select p m (x ∷ xs) (inl same) e = let e' : p x ≡ true = rw⁻¹ same e in rw e' (inl same)
Member-select p m (x ∷ xs) (inr h) e =
    let rest = Member-select p m xs h e in
    elim (Bool-cases (p x)) [ inl t ↦ rw t (inr rest) | inr f ↦ rw f rest ]

Member-sort :
    (lt : ModelRow → ModelRow → Bool) (m : ModelRow) (xs : List ModelRow)
    → Member m xs
    → Member m (sort_by lt xs)
Member-sort lt m xs h =
    All-Member (λ a. Member a (sort_by lt xs)) m xs
      (sort-All_back lt (λ a. Member a (sort_by lt xs)) xs
        (Member-All (λ a. Member a (sort_by lt xs)) (sort_by lt xs) (λ a k. k)))
      h

module _ (around : Surroundings) where
  All-insert :
      (P : ModelRow → Type 0) (x : ModelRow) (xs : List ModelRow)
      → P x
      → All P xs
      → All P (insert_by (model_lt around) x xs)
  unfolding insert_by
  All-insert P x [] hx h = (hx, tt)
  All-insert P x (y ∷ ys) hx h = elim (Bool-cases (model_lt around y x)) [
    | inl e ↦ rw e (h.0, All-insert P x ys hx h.1)
    | inr e ↦ rw e (hx, h)
  ]

  lt-rank :
      (x y : ModelRow)
      → model_lt around y x ≡ true
      → deploy_rank y.deployment_type ≤ deploy_rank x.deployment_type
  unfolding model_lt
  lt-rank x y h = ground (
    arith,
    ltb_iff (deploy_rank y.deployment_type) (deploy_rank x.deployment_type),
    ltb_iff (deploy_rank x.deployment_type) (deploy_rank y.deployment_type),
  )

  ge-rank :
      (x y : ModelRow)
      → model_lt around y x ≡ false
      → deploy_rank x.deployment_type ≤ deploy_rank y.deployment_type
  unfolding model_lt
  ge-rank x y h = ground (
    arith,
    ltb_iff (deploy_rank y.deployment_type) (deploy_rank x.deployment_type),
    ltb_iff (deploy_rank x.deployment_type) (deploy_rank y.deployment_type),
  )

  All-trans :
      (a b : ℕ) (xs : List ModelRow)
      → a ≤ b
      → All (λ y. b ≤ deploy_rank y.deployment_type) xs
      → All (λ y. a ≤ deploy_rank y.deployment_type) xs
  All-trans a b [] h k = tt
  All-trans a b (x ∷ xs) h k = (let k0 = k.0 in omega (arith, h, k0), All-trans a b xs h k.1)

  insert-Ranked :
      (x : ModelRow) (xs : List ModelRow) → Ranked xs → Ranked (insert_by (model_lt around) x xs)
  unfolding insert_by
  insert-Ranked x [] h = (tt, tt)
  insert-Ranked x (y ∷ ys) h = elim (Bool-cases (model_lt around y x)) [
    | inl e ↦ rw e (All-insert _ x ys (lt-rank x y e) h.0, insert-Ranked x ys h.1)
    | inr e ↦ let low = ge-rank x y e in rw e ((low, All-trans _ _ ys low h.0), h)
  ]

  sort-Ranked : (xs : List ModelRow) → Ranked (sort_by (model_lt around) xs)
  unfolding sort_by
  sort-Ranked [] = tt
  sort-Ranked (x ∷ xs) = insert-Ranked x (sort_by (model_lt around) xs) (sort-Ranked xs)

-- What a request asks of the model that it is routed to.
pub record IsFit (around : Surroundings) (db : CommandDb) (input : RouteInput) (m : ModelRow)
    : Type 0 where
  pub registered : Member m db.models
  pub organization_is : m.organization_id ≡ input.organization_id
  pub enabled : m.enabled ≡ true
  pub takes : has_class m.allowed_data_classes_json input.request.data_classification ≡ true
  pub risk_within : risk_rank input.request.risk_tier ≤ risk_rank m.risk_ceiling
  pub capable :
      any (λ c. not (includes m.capabilities_json c)) input.request.required_capabilities ≡ false
  pub stays_local : local_required around db input ≡ true → m.deployment_type ≡ local
  pub cloud_allowed : m.deployment_type ≡ cloud → cloud_denied around db input m ≡ false

pub is_local_sound : (d : DeploymentType) → is_local d ≡ true → d ≡ local
unfolding is_local
is_local_sound d h = ground (arith)

is_local_complete : (d : DeploymentType) → d ≡ local → is_local d ≡ true
unfolding is_local
is_local_complete d h = rw h refl

is_cloud_iff : (d : DeploymentType) → (is_cloud d ≡ true) ↔ (d ≡ cloud)
unfolding is_cloud
is_cloud_iff d = ground (arith)

module _ (around : Surroundings) (db : CommandDb) (input : RouteInput) where
  eligible-Fit :
      (m : ModelRow)
      → ((Member m db.models × (str_eq m.organization_id input.organization_id ≡ true))
          × (m.enabled ≡ true))
        × (is_eligible around db input m ≡ true)
      → IsFit around db input m
  unfolding is_eligible
  eligible-Fit m (((reg, org), on), e) = record {
    registered = reg;
    organization_is = (str_eq_iff m.organization_id input.organization_id).0 org;
    enabled = on;
    takes = ground (arith);
    risk_within =
        ground (arith, ltb_iff (risk_rank m.risk_ceiling) (risk_rank input.request.risk_tier));
    capable = ground (arith);
    stays_local = λ l. is_local_sound m.deployment_type (ground (arith));
    cloud_allowed = λ c. let t = (is_cloud_iff m.deployment_type).1 c in ground (arith);
  }

  Fit-eligible : (m : ModelRow) → IsFit around db input m → is_eligible around db input m ≡ true
  unfolding is_eligible
  Fit-eligible m f =
      let a = f.takes in
      let b = f.risk_within in
      let c = f.capable in
      let d = f.stays_local in
      let d' = is_local_complete m.deployment_type in
      let e = f.cloud_allowed in
      let e' = (is_cloud_iff m.deployment_type).0 in
      ground (arith, ltb_iff (risk_rank m.risk_ceiling) (risk_rank input.request.risk_tier))

  pub eligible-All : All (IsFit around db input) (eligible_models around db input)
  unfolding eligible_models list_models
  eligible-All =
      let org = λ (m : ModelRow). str_eq m.organization_id input.organization_id in
      let own =
        select-both (λ m. Member m db.models) org db.models (Member-All _ db.models (λ m k. k)) in
      let listed = sort-All _ _ _ own in
      let on = select-both _ (λ m. m.enabled) _ listed in
      let fit = select-both _ (is_eligible around db input) _ on in
      let sorted = sort-All (model_lt around) _ _ fit in
      Member-All _ _ (λ m k. eligible-Fit m (All-Member _ m _ sorted k))

  pub Fit-Member :
      (m : ModelRow) → IsFit around db input m → Member m (eligible_models around db input)
  unfolding eligible_models list_models
  Fit-Member m f = Member-sort (model_lt around) m _ (
      Member-select (is_eligible around db input) m _
        (Member-select (λ x. x.enabled) m _
          (Member-sort (λ a b. around.collate_lt a.model_key b.model_key) m _
            (Member-select (λ x. str_eq x.organization_id input.organization_id) m _ f.registered
              ((str_eq_iff m.organization_id input.organization_id).1 f.organization_is)))
          f.enabled)
        (Fit-eligible m f))

  pub eligible-Ranked : Ranked (eligible_models around db input)
  unfolding eligible_models
  eligible-Ranked = sort-Ranked around _
