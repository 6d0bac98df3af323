-- ===== src/Session/Plain.antt =====
-- What the default resolver makes of the request lines with no name and flags.
use libcody.Prelude.{Bool, true, false, List, ◌∷◌, none, ◌≡◌, refl, ap, ◌∙◌, Bytes, codes}
use libcody.Buffer.Append.{argument}
use libcody.Buffer.Bare.{bare}
use libcody.Packet.{module_repo, invoke}
use libcody.Number.{is_empty}
use libcody.Server.{error_response, Server, pathname_response}
use libcody.Server.Process.{invoke_sub_process_request, serve, handler}
use libcody.Server.Responses.{error_response-write}
use libcody.Resolver.{invoke_sub_process_request as unimplemented}
use libcody.Resolver.{default_resolver, repo_dir}
use libcody.Client.Lines.{argument_words}
use libcody.Session.Steps.{Replies, path_line, repo_line, unimplemented_line, path-Replies}

repo_dir_lem : argument repo_dir none ≡ repo_dir
unfolding argument
repo_dir_lem = refl

unimplemented_lem : argument (codes "unimplemented") none ≡ codes "unimplemented"
unfolding argument
unimplemented_lem = refl

module _ {R : Type 0} (is_regular : Bytes → Bool) (s : Server R) (up : s.is_connected ≡ true) where
  pub repo-Replies :
      Replies
        (default_resolver is_regular)
        s
        (pathname_response s repo_dir none)
        module_repo
        repo_line
        (path_line repo_dir)
  unfolding serve handler default_resolver
  repo-Replies =
      path-Replies is_regular s up module_repo repo_line repo_dir none repo_dir repo_dir_lem
        (rw up refl)

  pub invoke-Replies :
      (arg : Bytes) (args : List Bytes)
      → is_empty (argument arg none) ≡ false
      → Replies
          (default_resolver is_regular)
          s
          (error_response s (codes "unimplemented") none)
          invoke
          (bare (codes "INVOKE") ∷ argument_words (arg ∷ args))
          unimplemented_line
  unfolding serve handler invoke_sub_process_request unimplemented default_resolver
  invoke-Replies arg args ne = record {
    served = rw up (rw ne refl);
    same_read = unfold error_response in refl;
    written =
        ap (λ t. t.write) (error_response-write s (codes "unimplemented") none)
        ∙ rw unimplemented_lem refl;
  }
