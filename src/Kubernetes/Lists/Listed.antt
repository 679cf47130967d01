-- ===== src/Kubernetes/Lists/Listed.antt =====
-- What the lists of api/gem_api/services/k8s_client.py return and raise.
use gem_gdc_emulation_enviro.Prelude.{
  ◌⊎◌, if◌then◌else◌, ◌∷◌, subst, refl, ◌≡◌, false, is_empty, All, Text, codes, inl, inr, List, [],
  Option, none, some, Bool-cases,
}
use gem_gdc_emulation_enviro.Exceptions.{
  ◌>>=◌, other_error, returned, raised, attribute_error, Outcome,
}
use gem_gdc_emulation_enviro.Kubernetes.Lists.{
  true, get, vm_args, pod_args, list_pods, list_vms, read_listing, is_zero, iterate, or_empty,
  empty_array, read_document, read_vm, read_pod, Parser,
}
use gem_gdc_emulation_enviro.Kubernetes.{
  ℕ, Host, Call, Execution, completed, pos, result_of, kubectl_call, exec_kubectl,
}
use gem_gdc_emulation_enviro.Kubernetes.Failures.{Failing, Exited, exited_zero, Execution-cases}
use gem_gdc_emulation_enviro.Runner.Decoding.{decode}
use gem_gdc_emulation_enviro.Kubernetes.Lists.Reads.{
  each-Reads, no_attribute, iterate-Reads, reads, caught, Reads, stops, Anything, bind-Reads,
}
use gem_gdc_emulation_enviro.Kubernetes.Values.{each, Value}
use gem_gdc_emulation_enviro.Kubernetes.Lists.Items.{
  ShowsItsContainers, field-Reads, read_pod-Reads, read_vm-Reads,
}

-- What becomes of a call of kubectl, where kubectl is there.
abbrev pub execution : Host → Call → Option Execution
execution host call = if host.has_kubectl then some (host.run call) else none

-- kubectl is missing, or its call fails, or it prints nothing.
pub data HasNoOutput : Option Execution → Type 0 where
  no_kubectl : HasNoOutput none
  failing : (x : Execution) → Failing x → HasNoOutput (some x)
  silent :
      (out errors : List ℕ)
      → is_empty (decode out) ≡ true
      → HasNoOutput (some (completed (pos 0) out errors))

-- Each item is read, in order, and what is read has the property.
pub data EachRead {A : Type 0} (P : A → Type 0) (read : Value → Outcome A)
    : List Value → List A → Type 0 where
  no_more : EachRead P read [] []
  one_more :
      (v : Value) (a : A) (vs : List Value) (xs : List A)
      → read v ≡ returned a
      → P a
      → EachRead P read vs xs
      → EachRead P read (v ∷ vs) (a ∷ xs)

abbrev pub items_of : Value → Outcome (List Value)
items_of document = get document (codes "items") empty_array >>= iterate

-- How a list ends. Without output it is empty. Otherwise kubectl exited with 0: the list has what each
-- item of the document is read as, or it is empty where this raises an exception that is caught; and
-- the AttributeError of a value that is no object where one is expected leaves.
pub data Listed {A : Type 0} (parser : Parser) (P : A → Type 0) (read : Value → Outcome A)
    : Option Execution → Outcome (List A) → Type 0 where
  nothing_printed : (x : Option Execution) → HasNoOutput x → Listed parser P read x (returned [])
  listed :
      (out errors : List ℕ) (document : Value) (values : List Value) (items : List A)
      → parser.loads (decode out) ≡ some document
      → items_of document ≡ returned values
      → EachRead P read values items
      → Listed parser P read (some (completed (pos 0) out errors)) (returned items)
  unreadable :
      (out errors : List ℕ) (name message : Text)
      → read_document parser read (parser.loads (decode out)) ≡ raised (other_error name message)
      → Listed parser P read (some (completed (pos 0) out errors)) (returned [])
  escaped :
      (out errors : List ℕ)
      → read_document parser read (parser.loads (decode out)) ≡ raised attribute_error
      → Listed parser P read (some (completed (pos 0) out errors)) (raised attribute_error)

returned_inj : {A : Type 0} {a b : A} → returned a ≡ returned b → a ≡ b
returned_inj e = cc e

bind_returned :
    {A B : Type 0} (o : Outcome A) (f : A → Outcome B) (b : B)
    → (o >>= f) ≡ returned b
    → (a : A) × (o ≡ returned a) × (f a ≡ returned b)
bind_returned (returned a) f b h = (a, refl, h)
bind_returned (raised e) f b h = absurd (cc h)

module _ {A : Type 0} (P : A → Type 0) (read : Value → Outcome A) where
  given : (o : Outcome A) (a : A) → Reads P o → o ≡ returned a → P a
  given (returned b) a (reads _ h) e = subst P (returned_inj e) h
  given (raised x) a h e = absurd (cc e)

  each-EachRead :
      (h : (v : Value) → Reads P (read v)) (vs : List Value) (xs : List A)
      → each read vs ≡ returned xs
      → EachRead P read vs xs
  unfolding each
  each-EachRead h [] xs e = subst (EachRead P read []) (returned_inj e) no_more
  each-EachRead h (v ∷ vs) xs e =
      let (a, ea, rest) = bind_returned (read v) _ xs e in
      let (later, el, end) = bind_returned (each read vs) _ xs rest in
      subst (EachRead P read (v ∷ vs)) (returned_inj end)
        (one_more v a vs later ea (given (read v) a (h v) ea) (each-EachRead h vs later el))

module _ (parser : Parser) {A : Type 0} (P : A → Type 0) (read : Value → Outcome A)
    (h : (v : Value) → Reads P (read v)) where
  read_document-Reads : (o : Option Value) → Reads (All P) (read_document parser read o)
  read_document-Reads none = stops _ (caught _ _)
  read_document-Reads (some document) =
      bind-Reads Anything (All P) _ _
        (field-Reads parser document (codes "items") empty_array iterate iterate-Reads)
        (λ items _. each-Reads P read items h)

  read-Listed :
      (out errors : List ℕ) (document : Value) (items : List A)
      → parser.loads (decode out) ≡ some document
      → read_document parser read (some document) ≡ returned items
      → Listed parser P read (some (completed (pos 0) out errors)) (returned items)
  read-Listed out errors document items loaded e =
      let (values, found, rest) = bind_returned (items_of document) _ items e in
      listed out errors document values items loaded found
        (each-EachRead P read h values items rest)

  document-Listed :
      (out errors : List ℕ) (loaded : Option Value) (o : Outcome (List A))
      → parser.loads (decode out) ≡ loaded
      → read_document parser read loaded ≡ o
      → Reads (All P) o
      → Listed parser P read (some (completed (pos 0) out errors)) (or_empty o)
  document-Listed out errors (some document) (returned xs) l e r =
      read-Listed out errors document xs l e
  document-Listed out errors none (returned xs) l e r = absurd (cc e)
  document-Listed out errors loaded (raised _) l e (stops _ no_attribute) =
      escaped out errors (rw l e)
  document-Listed out errors loaded (raised _) l e (stops _ (caught name message)) =
      unreadable out errors name message (rw l e)

  case-Listed :
      (x : Execution)
      → (Exited x × (is_zero (result_of x).rc ≡ true))
        ⊎ (Failing x × (is_zero (result_of x).rc ≡ false))
      → Listed parser P read (some x) (read_listing parser read (result_of x))
  unfolding read_listing result_of
  case-Listed _ (inl (exited_zero out errors, ok)) = elim (Bool-cases (is_empty (decode out))) [
    | inl e ↦ rw e (nothing_printed _ (silent out errors e))
    | inr e ↦
        rw e (
          document-Listed out errors _ _ refl refl
            (read_document-Reads (parser.loads (decode out))))
  ]
  case-Listed x (inr (bad, other)) = rw other (nothing_printed _ (failing x bad))

  pub read_listing-Listed :
      (host : Host) (cluster_name : Text) (args : List Text)
      → Listed parser P read
          (execution host (kubectl_call host cluster_name args none))
          (read_listing parser read (exec_kubectl host cluster_name args none).0)
  unfolding exec_kubectl read_listing
  read_listing-Listed host cluster_name args = elim (Bool-cases host.has_kubectl) [
    | inl e ↦
        rw (e, exec_kubectl)
          (case-Listed _ (Execution-cases (host.run (kubectl_call host cluster_name args none))))
    | inr e ↦ rw (e, exec_kubectl, read_listing) (nothing_printed none no_kubectl)
  ]

module _ (parser : Parser) (host : Host) (cluster_name : Text) (namespace : Option Text) where
  -- list_pods returns what the items of the document that kubectl printed are read as, one for each and
  -- in order, where each pod shows how many of its containers are ready out of how many, or 1/1 where
  -- none is reported. It returns the empty list where kubectl is missing, fails, prints nothing or prints
  -- what raises an exception that is caught. The one exception that leaves is AttributeError.
  pub list_pods-Listed :
      (label_selector : Option Text)
      → Listed parser ShowsItsContainers
          (read_pod parser)
          (execution host (kubectl_call host cluster_name (pod_args namespace label_selector) none))
          (list_pods parser host cluster_name namespace label_selector).0
  unfolding list_pods
  list_pods-Listed label_selector =
      read_listing-Listed parser ShowsItsContainers (read_pod parser) (read_pod-Reads parser) host
        cluster_name (pod_args namespace label_selector)

  -- list_vms ends in the same way, and shows the state of a machine and its power state as one.
  pub list_vms-Listed :
      Listed parser
        (λ m. m.status ≡ m.power_state)
        (read_vm parser)
        (execution host (kubectl_call host cluster_name (vm_args namespace) none))
        (list_vms parser host cluster_name namespace).0
  unfolding list_vms
  list_vms-Listed =
      read_listing-Listed parser (λ m. m.status ≡ m.power_state) (read_vm parser)
        (read_vm-Reads parser) host cluster_name (vm_args namespace)

  -- Without kubectl both lists are empty, and nothing is called.
  pub lists-missing :
      (label_selector : Option Text)
      → host.has_kubectl ≡ false
      → (list_pods parser host cluster_name namespace label_selector ≡ (returned [], []))
        × (list_vms parser host cluster_name namespace ≡ (returned [], []))
  unfolding list_pods list_vms exec_kubectl read_listing
  lists-missing label_selector absent =
      (rw (absent, exec_kubectl) refl, rw (absent, exec_kubectl) refl)
