-- ===== src/Gcp/Discovered.antt =====
-- The clusters that list_clusters of api/gem_api/services/gcp_client.py returns.
use mathlib.Core.List.{Memᴰ}
use gem_gdc_emulation_enviro.Kubernetes.{pos, negsuc, is_zero}
use gem_gdc_emulation_enviro.Prelude.{
  zero, suc, arith, Text, ℕ, ◌≡◌, refl, List, [], ◌∷◌, Option, none, some, true, false, length, All,
  Bool-cases, inl, inr, text_eq,
}
use gem_gdc_emulation_enviro.Prelude.Dict
use gem_gdc_emulation_enviro.Prelude.Dict.{Dict}
use gem_gdc_emulation_enviro.Exceptions.{Exception, Outcome, returned, raised}
use gem_gdc_emulation_enviro.Config.{Settings}
use gem_gdc_emulation_enviro.Manifest.{
  Source, get_default_hardware_variant, get_default_gdc_version,
}
use gem_gdc_emulation_enviro.Kubernetes.Values.{Value, iterate}
use gem_gdc_emulation_enviro.Gcp.{
  Ended, completed, failed, output_of, memberships_args, project_or_default, discovered, Gcloud,
  ClusterInfo, ClusterListResponse, read_membership, discover, finish, discover_in,
  discover_document, discover_output, found_clusters, list_clusters, is_caught, add,
}
use gem_gdc_emulation_enviro.Gcp.Reports.{
  AllOf, Gives, Gives-bind, Gives-bind-of, Gives-if, Gives-raised, Gives-returned, IfAny,
  IsReported, Reports, read_membership-Runs,
}

values-put-AllOf :
    (P : ClusterInfo → Type 0) (found : Dict ClusterInfo) (k : Text) (c : ClusterInfo)
    → AllOf P found
    → P c
    → AllOf P (Dict.put found k c)
unfolding Dict.put AllOf
values-put-AllOf P [] k c h hc = (hc, tt)
values-put-AllOf P ((j, d) ∷ found) k c (hd, h) hc = elim (Bool-cases (text_eq j k)) [
  | inl e ↦ rw e (hc, h)
  | inr e ↦ rw e (hd, values-put-AllOf P found k c h hc)
]

module _ (gcloud : Gcloud) (read : Value → Outcome (Option ClusterInfo))
    (P : ClusterInfo → Type 0) where
  add-AllOf :
      (found : Dict ClusterInfo) (o : Option ClusterInfo)
      → AllOf P found
      → IfAny P o
      → AllOf P (add gcloud found o)
  unfolding IfAny
  add-AllOf found none hf ho = hf
  add-AllOf found (some c) hf ho = values-put-AllOf P found c.name c hf ho

  discover-AllOf :
      (memberships : List Value) (found : Dict ClusterInfo)
      → ((m : Value) → Memᴰ m memberships → Gives (IfAny P) (read m))
      → AllOf P found
      → AllOf P (discover gcloud read memberships found).0
  unfolding discover
  discover-AllOf [] found h hf = hf
  discover-AllOf (m ∷ memberships) found h hf = step (read m) (h m (Memᴰ.head refl)) (λ o ho.
      discover-AllOf memberships (add gcloud found o) (λ x i. h x (Memᴰ.tail i))
        (add-AllOf found o hf ho))
    where
      step :
          (o : Outcome (Option ClusterInfo))
          → Gives (IfAny P) o
          → ((o : Option ClusterInfo)
              → IfAny P o
              → AllOf P (discover gcloud read memberships (add gcloud found o)).0)
          → AllOf P (discovered gcloud o (discover gcloud read memberships) found).0
      step (returned o) ho later = later o (ho.holds o refl)
      step (raised e) ho later = hf

  finish-AllOf :
      (d : Dict ClusterInfo × Option Exception) → AllOf P d.0 → Gives (AllOf P) (finish gcloud d)
  finish-AllOf (found, none) hf = Gives-returned (AllOf P) found hf
  finish-AllOf (found, some e) hf =
      Gives-if (AllOf P) (is_caught e) _ _ (λ c. Gives-returned (AllOf P) found hf)
        (λ c. Gives-raised (AllOf P) e)

-- The memberships that gcloud lists for a project: those of the document that it prints, where it exits
-- with 0 and the document can be read, and otherwise none.
pub data Memberships (gcloud : Gcloud) (pid : Text) : List Value → Type 0 where
  not_listed : Memberships gcloud pid []
  listed :
      (stdout : List ℕ) (document : Value) (memberships : List Value)
      → gcloud.has_gcloud ≡ true
      → gcloud.run (memberships_args gcloud pid) ≡ completed (pos 0) stdout
      → gcloud.loads stdout ≡ some document
      → iterate document ≡ returned memberships
      → Memberships gcloud pid memberships

-- Clusters, each of which is reported to run by one of the memberships of a project.
record AreReported (gcloud : Gcloud) (pid : Text) (found : Dict ClusterInfo) : Type 0 where
  memberships : List Value
  are_listed : Memberships gcloud pid memberships
  reported : AllOf (IsReported gcloud memberships) found

module _ (gcloud : Gcloud) (pid zone hw gdc : Text) where
  none_reported : AreReported gcloud pid []
  unfolding AllOf
  none_reported = record { memberships = []; are_listed = not_listed; reported = tt }

  abbrev read_one : Value → Outcome (Option ClusterInfo)
  read_one = read_membership gcloud pid zone hw gdc

  read_one-IsReported :
      (memberships : List Value) (m : Value)
      → Memᴰ m memberships
      → Gives (IfAny (IsReported gcloud memberships)) (read_one m)
  unfolding IfAny
  read_one-IsReported memberships m i = record {
    holds = λ o e. reported o ((read_membership-Runs gcloud pid zone hw gdc m).holds o e);
  }
    where
      reported :
          (o : Option ClusterInfo)
          → IfAny (Reports gcloud m) o
          → IfAny (IsReported gcloud memberships) o
      reported none h = tt
      reported (some c) h = record { membership = m; is_listed = i; reports = h }

  iterated-AreReported :
      (document : Value) (o : Outcome (List Value))
      → ((memberships : List Value) → o ≡ returned memberships → Memberships gcloud pid memberships)
      → Gives (AreReported gcloud pid) (discover_in gcloud read_one o)
  unfolding AllOf
  iterated-AreReported document (returned ms) h = record {
    holds = λ found e. record {
      memberships = ms;
      are_listed = h ms refl;
      reported =
          (finish-AllOf gcloud read_one (IsReported gcloud ms) _ (
              discover-AllOf gcloud read_one (IsReported gcloud ms) ms [] (read_one-IsReported ms)
                tt)).holds
            found e;
    };
  }
  iterated-AreReported document (raised x) h = record {
    holds = λ found e. record {
      memberships = [];
      are_listed = not_listed;
      reported =
          (finish-AllOf gcloud read_one (IsReported gcloud []) ([], some x) tt).holds found e;
    };
  }

  output-AreReported :
      (ended : Ended)
      → gcloud.has_gcloud ≡ true
      → gcloud.run (memberships_args gcloud pid) ≡ ended
      → Gives (AreReported gcloud pid) (discover_output gcloud read_one (output_of gcloud ended))
  output-AreReported failed has e = Gives-returned _ [] none_reported
  output-AreReported (completed (negsuc n) stdout) has e = Gives-returned _ [] none_reported
  output-AreReported (completed (pos (suc n)) stdout) has e =
      let bad : is_zero (pos (suc n)) ≡ false = ground arith in
      rw bad (Gives-returned _ [] none_reported)
  output-AreReported (completed (pos zero) []) has e = Gives-returned _ [] none_reported
  output-AreReported (completed (pos zero) (b ∷ stdout)) has e =
      loaded (gcloud.loads (b ∷ stdout)) refl
    where
      loaded :
          (o : Option Value)
          → gcloud.loads (b ∷ stdout) ≡ o
          → Gives (AreReported gcloud pid) (discover_document gcloud read_one o)
      loaded none l = Gives-returned _ [] none_reported
      loaded (some document) l =
          iterated-AreReported document (iterate document)
            (λ ms i. listed (b ∷ stdout) document ms has e l i)

  found_clusters-AreReported :
      Gives (AreReported gcloud pid) (found_clusters gcloud pid zone hw gdc)
  unfolding found_clusters
  found_clusters-AreReported =
      Gives-if _ gcloud.has_gcloud _ _ (λ has. output-AreReported _ has refl)
        (λ e. Gives-returned _ [] none_reported)

-- What the response lists.
pub record ListsRunning (gcloud : Gcloud) (pid : Text) (r : ClusterListResponse) : Type 0 where
  pub memberships : List Value
  pub are_listed : Memberships gcloud pid memberships
  pub running : All (IsReported gcloud memberships) r.clusters
  pub counted : r.total ≡ length r.clusters

-- Every cluster that list_clusters returns is RUNNING, and one of the memberships that gcloud lists for
-- the project has its name and the state code READY, OK or RUNNING, in any case, or no code. So a cluster
-- that is only reported as provisioned, degraded, stopped or in error does not appear. The total is the
-- number of the clusters.
pub list_clusters-ListsRunning :
    (gcloud : Gcloud) (source : Source) (settings : Settings) (project_id : Option Text)
    (r : ClusterListResponse)
    → list_clusters gcloud source settings project_id ≡ returned r
    → ListsRunning gcloud (project_or_default gcloud project_id settings.default_project_id) r
unfolding list_clusters AllOf
list_clusters-ListsRunning gcloud source settings project_id r h =
    let pid = project_or_default gcloud project_id settings.default_project_id in
    let P = ListsRunning gcloud pid in
    let given = Gives-bind P (get_default_hardware_variant source) _ (λ hw.
      Gives-bind P (get_default_gdc_version source) _ (λ gdc.
        Gives-bind-of (AreReported gcloud pid) P
          (found_clusters gcloud pid settings.default_zone hw gdc) _
          (found_clusters-AreReported gcloud pid settings.default_zone hw gdc)
          (λ found h. Gives-returned P _ (record {
            memberships = h.memberships;
            are_listed = h.are_listed;
            running = h.reported;
            counted = refl;
          })))) in
    given.holds r h
