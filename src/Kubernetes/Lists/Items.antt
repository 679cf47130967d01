-- ===== src/Kubernetes/Lists/Items.antt =====
-- Reading a pod and a virtual machine in api/gem_api/services/k8s_client.py.
use gem_gdc_emulation_enviro.Kubernetes.Lists.Reads.{
  as_number-Reads, each-Reads, iterate-Reads, reads, as_optional_text-Reads, caught, Reads, stops,
  Anything, any_value, bind-Reads, get-Reads, in_value-Reads, as_text-Reads,
}
use gem_gdc_emulation_enviro.Kubernetes.Values.{
  nil, cons, null, num, arr, obj, Value, bool, text, get, in_value, as_text,
}
use gem_gdc_emulation_enviro.Prelude.{
  subst, All, Text, codes, ℕ, ◌≡◌, refl, inl, inr, List, [], ◌∷◌, Option, none, some, Bool, true,
  false, if◌then◌else◌, length, Bool-cases,
}
use gem_gdc_emulation_enviro.Prelude.Strings.{decimal}
use gem_gdc_emulation_enviro.Exceptions.{Outcome, ◌>>=◌, returned, ◌&◌}
use gem_gdc_emulation_enviro.Kubernetes.Models.{ContainerStatusItem, PodItem}
use gem_gdc_emulation_enviro.Kubernetes.Lists.{
  suc, is_empty, as_number, restart_count, iterate, empty_array, is_true, ip_address, read_vm,
  first_item, read_pod, Parser, read_bool, container_state, read_container, ready_count, ready_text,
  empty_object,
}

-- How many of the containers are ready.
pub data Ready : List ContainerStatusItem → ℕ → Type 0 where
  none_left : Ready [] 0
  ready_one :
      {c : ContainerStatusItem} {cs : List ContainerStatusItem} {n : ℕ}
      → c.ready ≡ true
      → Ready cs n
      → Ready (c ∷ cs) (suc n)
  other_one :
      {c : ContainerStatusItem} {cs : List ContainerStatusItem} {n : ℕ}
      → c.ready ≡ false
      → Ready cs n
      → Ready (c ∷ cs) n

-- How a pod shows its containers: the ready ones of all, and 1/1 where none is reported.
pub data ShowsReady (containers : List ContainerStatusItem) : Text → Type 0 where
  none_reported : containers ≡ [] → ShowsReady containers (codes "1/1")
  of_all :
      (ready : ℕ)
      → Ready containers ready
      → is_empty containers ≡ false
      → ShowsReady containers (decimal ready & codes "/" & decimal (length containers))

pub ShowsItsContainers : PodItem → Type 0
ShowsItsContainers pod = ShowsReady pod.containers pod.ready

module _ (parser : Parser) where
  ready_count-Ready : (cs : List ContainerStatusItem) → Ready cs (ready_count cs)
  ready_count-Ready [] = none_left
  ready_count-Ready (c ∷ cs) = elim (Bool-cases c.ready) [
    | inl e ↦
        let count : suc (ready_count cs) ≡ ready_count (c ∷ cs) = rw e refl in
        subst (Ready (c ∷ cs)) count (ready_one e (ready_count-Ready cs))
    | inr e ↦
        let count : ready_count cs ≡ ready_count (c ∷ cs) = rw e refl in
        subst (Ready (c ∷ cs)) count (other_one e (ready_count-Ready cs))
  ]

  ready_text-ShowsReady : (cs : List ContainerStatusItem) → ShowsReady cs (ready_text cs)
  ready_text-ShowsReady [] = none_reported refl
  ready_text-ShowsReady (c ∷ cs) = of_all _ (ready_count-Ready (c ∷ cs)) refl

  read_bool-Reads : (b : Option Bool) → Reads Anything (read_bool b)
  read_bool-Reads none = stops _ (caught _ _)
  read_bool-Reads (some b) = any_value b

  -- A member of a value, converted.
  pub field-Reads :
      {A : Type 0} (v : Value) (key : Text) (d : Value) (read : Value → Outcome A)
      → ((w : Value) → Reads Anything (read w))
      → Reads Anything (get v key d >>= read)
  field-Reads v key d read h =
      bind-Reads Anything Anything (get v key d) read (get-Reads v key d) (λ w _. h w)

  container_state-Reads : (c : Value) → Reads Anything (container_state parser c)
  unfolding container_state
  container_state-Reads c = field-Reads c (codes "state") empty_object _ (λ c_state.
      bind-Reads Anything Anything (in_value (codes "running") c_state) _
        (in_value-Reads (codes "running") c_state) (λ runs _. chosen c_state runs))
    where
      chosen :
          (c_state : Value) (runs : Bool)
          → Reads Anything (
              if runs
              then returned (codes "running")
              else (in_value (codes "terminated") c_state >>= λ over.
                  returned (if over then codes "terminated" else codes "waiting")))
      chosen c_state true = any_value _
      chosen c_state false =
          bind-Reads Anything Anything (in_value (codes "terminated") c_state) _
            (in_value-Reads (codes "terminated") c_state) (λ over _. any_value _)

  read_container-Reads : (c : Value) → Reads Anything (read_container parser c)
  unfolding read_container
  read_container-Reads c = bind-Reads Anything Anything _ _ (container_state-Reads c) (λ state _.
      bind-Reads Anything Anything _ _
        (field-Reads c (codes "name") (text []) as_text as_text-Reads)
        (λ name _.
          bind-Reads Anything Anything _ _
            (field-Reads c (codes "image") (text []) as_text as_text-Reads)
            (λ image _.
              bind-Reads Anything Anything _ _
                (field-Reads c (codes "ready") (bool false) (λ v. read_bool (parser.as_bool v))
                  (λ v. read_bool-Reads (parser.as_bool v)))
                (λ ready _. any_value _))))

  pub read_pod-Reads : (pod : Value) → Reads ShowsItsContainers (read_pod parser pod)
  unfolding read_pod ShowsItsContainers
  read_pod-Reads pod =
      bind-Reads Anything _ _ _ (get-Reads pod (codes "metadata") empty_object) (λ meta _.
        bind-Reads Anything _ _ _ (get-Reads pod (codes "status") empty_object) (λ pod_status _.
          bind-Reads Anything _ _ _
            (field-Reads pod_status (codes "containerStatuses") empty_array iterate iterate-Reads)
            (λ statuses _.
              bind-Reads (All Anything) _ _ _
                (each-Reads Anything (read_container parser) statuses read_container-Reads)
                (λ containers _.
                  bind-Reads Anything _ _ _ (get-Reads meta (codes "name") (text []))
                    (λ name_value _.
                      bind-Reads Anything _ _ _
                        (get-Reads meta (codes "namespace") (text (codes "default")))
                        (λ namespace_value _.
                          bind-Reads Anything _ _ _
                            (get-Reads pod_status (codes "phase") (text (codes "Running")))
                            (λ phase _.
                              bind-Reads (All Anything) _ _ _
                                (each-Reads Anything (restart_count) statuses (λ c.
                                  field-Reads c (codes "restartCount") (num 0) as_number
                                    as_number-Reads))
                                (λ restarts _.
                                  bind-Reads Anything _ _ _
                                    (get-Reads pod_status (codes "podIP") (text (codes "10.0.1.1")))
                                    (λ ip_value _.
                                      bind-Reads Anything _ _ _
                                        (get-Reads pod (codes "spec") empty_object)
                                        (λ spec _.
                                          bind-Reads Anything _ _ _
                                            (get-Reads spec (codes "nodeName") (text []))
                                            (λ node _.
                                              bind-Reads Anything _ _ _ (as_text-Reads name_value)
                                                (λ name _.
                                                  bind-Reads Anything _ _ _
                                                    (as_text-Reads namespace_value)
                                                    (λ namespace _.
                                                      bind-Reads Anything _ _ _
                                                        (as_text-Reads phase)
                                                        (λ status _.
                                                          bind-Reads Anything _ _ _
                                                            (as_optional_text-Reads ip_value)
                                                            (λ ip _.
                                                            bind-Reads Anything _ _ _
                                                            (as_optional_text-Reads node)
                                                            (λ node_name _. reads _ (
                                                            ready_text-ShowsReady
                                                            containers)))))))))))))))))

  first_item-Reads : (v : Value) → Reads Anything (first_item v)
  first_item-Reads null = stops _ (caught _ _)
  first_item-Reads (bool b) = stops _ (caught _ _)
  first_item-Reads (num n) = stops _ (caught _ _)
  first_item-Reads (text []) = stops _ (caught _ _)
  first_item-Reads (text (c ∷ s)) = any_value _
  first_item-Reads (arr nil) = stops _ (caught _ _)
  first_item-Reads (arr (cons v vs)) = any_value _
  first_item-Reads (obj ms) = stops _ (caught _ _)

  ip_address-Reads : (v : Value) → Reads Anything (ip_address v)
  ip_address-Reads (obj ms) = any_value _
  ip_address-Reads null = any_value _
  ip_address-Reads (bool b) = any_value _
  ip_address-Reads (num n) = any_value _
  ip_address-Reads (text s) = any_value _
  ip_address-Reads (arr vs) = any_value _

  first_or_empty-Reads :
      (b : Bool) (v : Value) → Reads Anything (if b then first_item v else returned empty_object)
  first_or_empty-Reads true v = first_item-Reads v
  first_or_empty-Reads false v = any_value _

  -- A virtual machine that is shown runs or is stopped, in both of its fields.
  pub read_vm-Reads : (vm : Value) → Reads (λ m. m.status ≡ m.power_state) (read_vm parser vm)
  unfolding read_vm
  read_vm-Reads vm =
      bind-Reads Anything _ _ _ (get-Reads vm (codes "metadata") empty_object) (λ meta _.
        bind-Reads Anything _ _ _ (get-Reads vm (codes "spec") empty_object) (λ spec _.
          bind-Reads Anything _ _ _ (get-Reads vm (codes "status") empty_object) (λ status_obj _.
            bind-Reads Anything _ _ _ (get-Reads spec (codes "running") null) (λ running _.
              bind-Reads Anything _ _ _ (get-Reads status_obj (codes "interfaces") null)
                (λ interfaces _.
                  bind-Reads Anything _ _ _ (first_or_empty-Reads (is_true interfaces) interfaces)
                    (λ first_iface _.
                      bind-Reads Anything _ _ _ (ip_address-Reads first_iface) (λ vm_ip _.
                        bind-Reads Anything _ _ _ (get-Reads meta (codes "name") (text []))
                          (λ name_value _.
                            bind-Reads Anything _ _ _
                              (get-Reads meta (codes "namespace") (text (codes "default")))
                              (λ namespace_value _.
                                bind-Reads Anything _ _ _ (as_text-Reads name_value) (λ name _.
                                  bind-Reads Anything _ _ _ (as_text-Reads namespace_value)
                                    (λ namespace _.
                                      bind-Reads Anything _ _ _ (as_optional_text-Reads vm_ip)
                                        (λ ip _. reads _ refl))))))))))))
