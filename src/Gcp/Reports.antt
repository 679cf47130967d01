-- ===== src/Gcp/Reports.antt =====
-- What read_membership, the loop body of list_clusters in api/gem_api/services/gcp_client.py, returns.
use mathlib.Core.List.{Memᴰ}
use gem_gdc_emulation_enviro.Prelude.{
  Text, codes, ◌≡◌, refl, subst, List, [], ◌∷◌, Option, none, some, Bool, true, false, not,
  is_empty, All, Bool-cases, inl, inr, text_eq, text_eq_iff, if◌then◌else◌,
}
use gem_gdc_emulation_enviro.Prelude.Dict.{Dict, values}
use gem_gdc_emulation_enviro.Exceptions.{Exception, Outcome, ◌>>=◌, returned, raised}
use gem_gdc_emulation_enviro.Kubernetes.Values.{
  Value, get, text, obj, num, null, end, as_text, as_optional_text,
}
use gem_gdc_emulation_enviro.Gcp.{
  find_status, fleet_status_map, upper, read_int, value_or, str_of, raw_name, Gcloud, ClusterInfo,
  read_membership, map_fleet_status,
}

-- Whatever is returned has the property.
pub record Gives {A : Type 0} (P : A → Type 0) (o : Outcome A) : Type 0 where
  pub holds : (a : A) → o ≡ returned a → P a

returned_inj : {A : Type 0} {a b : A} → returned a ≡ returned b → a ≡ b
returned_inj e = cc e

pub Gives-returned : {A : Type 0} (P : A → Type 0) (a : A) → P a → Gives P (returned a)
Gives-returned P a h = record { holds = λ b e. subst P (returned_inj e) h }

pub Gives-raised : {A : Type 0} (P : A → Type 0) (e : Exception) → Gives P (raised e)
Gives-raised P e = record { holds = λ b h. absurd (cc h) }

pub Gives-bind :
    {A B : Type 0} (P : B → Type 0) (o : Outcome A) (f : A → Outcome B)
    → ((a : A) → Gives P (f a))
    → Gives P (o >>= f)
Gives-bind P (returned a) f h = h a
Gives-bind P (raised e) f h = Gives-raised P e

pub Gives-bind-of :
    {A B : Type 0} (Q : A → Type 0) (P : B → Type 0) (o : Outcome A) (f : A → Outcome B)
    → Gives Q o
    → ((a : A) → Q a → Gives P (f a))
    → Gives P (o >>= f)
Gives-bind-of Q P (returned a) f ho h = h a (ho.holds a refl)
Gives-bind-of Q P (raised e) f ho h = Gives-raised P e

pub Gives-if :
    {A : Type 0} (P : A → Type 0) (b : Bool) (o p : Outcome A)
    → (b ≡ true → Gives P o)
    → (b ≡ false → Gives P p)
    → Gives P (if b then o else p)
Gives-if P true o p ho hp = ho refl
Gives-if P false o p ho hp = hp refl

Gives-bind-from :
    {A B : Type 0} (P : B → Type 0) (o : Outcome A) (f : A → Outcome B)
    → ((a : A) → o ≡ returned a → Gives P (f a))
    → Gives P (o >>= f)
Gives-bind-from P (returned a) f h = h a refl
Gives-bind-from P (raised e) f h = Gives-raised P e

-- The state codes of a membership whose cluster runs, in upper case.
pub data IsUp : Text → Type 0 where
  ready : IsUp (codes "READY")
  ok : IsUp (codes "OK")
  runs : IsUp (codes "RUNNING")

AllUp : List (Text × Text) → Type 0
AllUp = All (λ entry. entry.1 ≡ codes "RUNNING" → IsUp entry.0)

find_status-IsUp :
    (code : Text) (entries : List (Text × Text))
    → AllUp entries
    → find_status code entries ≡ codes "RUNNING"
    → IsUp code
unfolding find_status AllUp
find_status-IsUp code [] h e = absurd (cc e)
find_status-IsUp code ((key, status) ∷ entries) (here, later) e =
    elim (Bool-cases (text_eq key code)) [
      | inl same ↦ subst IsUp ((text_eq_iff key code).0 same) (here (rw same at e))
      | inr other ↦ find_status-IsUp code entries later (rw other at e)
    ]

differs : {s : Text} {A : Type 0} → text_eq s (codes "RUNNING") ≡ false → s ≡ codes "RUNNING" → A
differs {s} h e = absurd (cc (h, (text_eq_iff s (codes "RUNNING")).1 e))

fleet_status_map-AllUp : AllUp fleet_status_map
unfolding AllUp text_eq
fleet_status_map-AllUp = (
  (λ _. ready),
  (
    (λ _. ok),
    (
      (λ _. runs),
      (
        differs refl,
        (
          differs refl,
          (
            differs refl,
            (
              differs refl,
              (differs refl, (differs refl, (differs refl, (differs refl, (differs refl, tt))))),
            ),
          ),
        ),
      ),
    ),
  ),
)

map_fleet_status-IsUp : (code : Text) → map_fleet_status code ≡ codes "RUNNING" → IsUp (upper code)
unfolding map_fleet_status
map_fleet_status-IsUp code e = find_status-IsUp (upper code) _ fleet_status_map-AllUp e

-- A membership reports a cluster under this name, whose state code says that it runs; a membership
-- without a code counts as READY.
pub record Reports (gcloud : Gcloud) (m : Value) (c : ClusterInfo) : Type 0 where
  pub named : (get m (codes "name") (text []) >>= raw_name) ≡ returned c.name
  pub state : Value
  pub has_state : get m (codes "state") (obj end) ≡ returned state
  pub code : Value
  pub has_code : get state (codes "code") (text (codes "READY")) ≡ returned code
  pub up : IsUp (upper (str_of gcloud code))
  pub running : c.status ≡ codes "RUNNING"

-- A cluster that one of these memberships reports to run.
pub record IsReported (gcloud : Gcloud) (memberships : List Value) (c : ClusterInfo) : Type 0 where
  pub membership : Value
  pub is_listed : Memᴰ membership memberships
  pub reports : Reports gcloud membership c

unfoldable pub IfAny : (ClusterInfo → Type 0) → Option ClusterInfo → Type 0
IfAny P none = Unit
IfAny P (some c) = P c

unfoldable pub AllOf : (ClusterInfo → Type 0) → Dict ClusterInfo → Type 0
AllOf P found = All P (values found)

module _ (gcloud : Gcloud) (pid zone hw gdc : Text) where
  abbrev RunsIfAny : Value → Option ClusterInfo → Type 0
  RunsIfAny m = IfAny (Reports gcloud m)

  pub read_membership-Runs :
      (m : Value) → Gives (RunsIfAny m) (read_membership gcloud pid zone hw gdc m)
  unfolding read_membership IfAny
  read_membership-Runs m =
      Gives-bind-from (RunsIfAny m) (get m (codes "name") (text []) >>= raw_name) _ (λ name named.
        Gives-if (RunsIfAny m) (is_empty name) _ _ (λ e. Gives-returned (RunsIfAny m) none tt)
          (λ e.
            Gives-bind (RunsIfAny m) (get m (codes "monitoringConfig") (obj end)) _ (λ monitoring.
              Gives-bind (RunsIfAny m) (get monitoring (codes "location") null) _ (λ location.
                Gives-bind (RunsIfAny m) (get m (codes "endpoint") (obj end)) _ (λ endpoint.
                  Gives-bind (RunsIfAny m) (get endpoint (codes "kubernetesMetadata") (obj end)) _
                    (λ k8s_meta.
                      Gives-bind (RunsIfAny m)
                        (get k8s_meta (codes "kubernetesApiServerVersion")
                          (text (codes "1.34.100-gke.97")))
                        _
                        (λ version.
                          Gives-bind (RunsIfAny m) (get k8s_meta (codes "nodeCount") (num 3)) _
                            (λ node_count.
                              Gives-bind-from (RunsIfAny m) (get m (codes "state") (obj end)) _
                                (λ state has_state.
                                  Gives-bind-from (RunsIfAny m)
                                    (get state (codes "code") (text (codes "READY"))) _
                                    (λ code has_code.
                                      let status = map_fleet_status (str_of gcloud code) in
                                      Gives-if (RunsIfAny m)
                                        (not (text_eq status (codes "RUNNING"))) _ _
                                        (λ e. Gives-returned (RunsIfAny m) none tt)
                                        (λ running.
                                          Gives-bind (RunsIfAny m) (get m (codes "createTime") null)
                                            _
                                            (λ created.
                                              Gives-bind (RunsIfAny m)
                                                (as_text (value_or location (text zone))) _
                                                (λ loc.
                                                  Gives-bind (RunsIfAny m) (as_text version) _
                                                    (λ master_version.
                                                      Gives-bind (RunsIfAny m)
                                                        (read_int (gcloud.as_int node_count)) _
                                                        (λ nodes.
                                                          Gives-bind (RunsIfAny m)
                                                            (as_optional_text created) _
                                                            (λ create_time.
                                                            Gives-returned (RunsIfAny m) (some _)
                                                            (record {
                                                            named = named;
                                                            state = state;
                                                            has_state = has_state;
                                                            code = code;
                                                            has_code = has_code;
                                                            up =
                                                            map_fleet_status-IsUp
                                                            (str_of gcloud code)
                                                            (is_running status running);
                                                            running = is_running status running;
                                                            })))))))))))))))))
    where
      is_running : (s : Text) → not (text_eq s (codes "RUNNING")) ≡ false → s ≡ codes "RUNNING"
      is_running s h =
          (text_eq_iff s (codes "RUNNING")).0 (positive (text_eq s (codes "RUNNING")) h)
        where
          positive : (b : Bool) → not b ≡ false → b ≡ true
          positive true h = refl
          positive false h = absurd (cc h)
