-- ===== src/Kubernetes/Syncs/Commits.antt =====
-- What list_rootsyncs in api/gem_api/services/k8s_client.py shows of a commit.
use gem_gdc_emulation_enviro.Prelude.{Text, codes, ℕ, zero, suc, ◌≤◌, [], ◌∷◌, none, length, arith}
use gem_gdc_emulation_enviro.Kubernetes.{kubectl_call, List, Host}
use gem_gdc_emulation_enviro.Kubernetes.Values.{Value, null, bool, num, text, arr, obj, end}
use gem_gdc_emulation_enviro.Kubernetes.Lists.{Parser}
use gem_gdc_emulation_enviro.Kubernetes.Lists.Reads.{
  Reads, reads, stops, caught, Anything, bind-Reads, get-Reads, as_text-Reads,
}
use gem_gdc_emulation_enviro.Kubernetes.Lists.Listed.{execution, Listed, read_listing-Listed}
use gem_gdc_emulation_enviro.Kubernetes.Syncs.{
  first_codes, short_text, get_in, read_rootsync, list_rootsyncs,
}

length-first_codes : (n : ℕ) (s : Text) → length (first_codes n s) ≤ n
length-first_codes zero s = omega arith
length-first_codes (suc n) [] = omega arith
length-first_codes (suc n) (c ∷ s) = let h = length-first_codes n s in omega arith

IsShort : Text → Type 0
IsShort s = length s ≤ 9

short_text-Reads : (v : Value) → Reads IsShort (short_text v)
unfolding IsShort
short_text-Reads (text s) = reads _ (length-first_codes 9 s)
short_text-Reads null = stops _ (caught _ _)
short_text-Reads (bool b) = stops _ (caught _ _)
short_text-Reads (num n) = stops _ (caught _ _)
short_text-Reads (arr vs) = stops _ (caught _ _)
short_text-Reads (obj ms) = stops _ (caught _ _)

get_in-Reads : (v : Value) (key inner : Text) (d : Value) → Reads Anything (get_in v key inner d)
get_in-Reads v key inner d =
    bind-Reads Anything Anything _ _ (get-Reads v key (obj end)) (λ w _. get-Reads w inner d)

read_rootsync-Reads : (sync : Value) → Reads (λ r. length r.commit ≤ 9) (read_rootsync sync)
unfolding read_rootsync IsShort
read_rootsync-Reads sync =
    bind-Reads Anything _ _ _ (get-Reads sync (codes "metadata") (obj end)) (λ meta _.
      bind-Reads Anything _ _ _ (get_in-Reads sync (codes "spec") (codes "git") (obj end))
        (λ spec _.
          bind-Reads Anything _ _ _ (get-Reads sync (codes "status") (obj end)) (λ status_obj _.
            bind-Reads Anything _ _ _ (get-Reads meta (codes "name") (text [])) (λ name_value _.
              bind-Reads Anything _ _ _
                (get-Reads meta (codes "namespace") (text (codes "config-management-system")))
                (λ namespace_value _.
                  bind-Reads Anything _ _ _ (get-Reads spec (codes "repo") (text []))
                    (λ repo_value _.
                      bind-Reads Anything _ _ _
                        (get-Reads spec (codes "branch") (text (codes "main")))
                        (λ branch_value _.
                          bind-Reads Anything _ _ _
                            (get-Reads spec (codes "dir") (text (codes "/")))
                            (λ dir_value _.
                              bind-Reads Anything _ _ _
                                (get-Reads spec (codes "auth") (text (codes "none")))
                                (λ auth_value _.
                                  bind-Reads Anything _ _ _
                                    (get-Reads spec (codes "period") (text (codes "15s")))
                                    (λ period_value _.
                                      bind-Reads Anything _ _ _
                                        (get_in-Reads status_obj (codes "sync") (codes "status")
                                          (text (codes "SYNCED")))
                                        (λ status_value _.
                                          bind-Reads Anything _ _ _
                                            (get_in-Reads status_obj (codes "sync") (codes "commit")
                                              (text []))
                                            (λ commit_value _.
                                              bind-Reads Anything _ _ _
                                                (get_in-Reads status_obj (codes "sync")
                                                  (codes "lastUpdate") (text []))
                                                (λ updated_value _.
                                                  bind-Reads IsShort _ _ _
                                                    (short_text-Reads commit_value)
                                                    (λ commit short.
                                                      bind-Reads Anything _ _ _
                                                        (as_text-Reads name_value)
                                                        (λ name _.
                                                          bind-Reads Anything _ _ _
                                                            (as_text-Reads namespace_value)
                                                            (λ namespace _.
                                                            bind-Reads Anything _ _ _
                                                            (as_text-Reads repo_value)
                                                            (λ repo _.
                                                            bind-Reads Anything _ _ _
                                                            (as_text-Reads branch_value)
                                                            (λ branch _.
                                                            bind-Reads Anything _ _ _
                                                            (as_text-Reads dir_value)
                                                            (λ dir _.
                                                            bind-Reads Anything _ _ _
                                                            (as_text-Reads auth_value)
                                                            (λ auth _.
                                                            bind-Reads Anything _ _ _
                                                            (as_text-Reads period_value)
                                                            (λ period _.
                                                            bind-Reads Anything _ _ _
                                                            (as_text-Reads status_value)
                                                            (λ status _.
                                                            bind-Reads Anything _ _ _
                                                            (as_text-Reads updated_value)
                                                            (λ last_synced _.
                                                            reads _ short)))))))))))))))))))))))

abbrev pub rootsync_args : List Text
rootsync_args =
    codes "get" ∷ codes "rootsyncs.configsync.gke.io" ∷ codes "-A" ∷ codes "-o" ∷ codes "json" ∷ []

-- list_rootsyncs ends as the other lists do, and shows at most nine characters of a commit.
pub list_rootsyncs-Listed :
    (parser : Parser) (host : Host) (cluster_name : Text)
    → Listed parser
        (λ r. length r.commit ≤ 9)
        read_rootsync
        (execution host (kubectl_call host cluster_name rootsync_args none))
        (list_rootsyncs parser host cluster_name).0
unfolding list_rootsyncs
list_rootsyncs-Listed parser host cluster_name =
    read_listing-Listed parser (λ r. length r.commit ≤ 9) read_rootsync read_rootsync-Reads host
      cluster_name rootsync_args
