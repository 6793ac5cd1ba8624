-- ===== src/Serve/Secrets.antt =====
-- The secrets that a sandbox is given.
use osg_gateway.Base.{
  String, Bool, true, false, ◌≡◌, ◌≢◌, refl, ◌∙◌, ap, ◌==◌, eq_iff, arith, Option, none, some,
  is_some, neg, ◌&&◌, if◌then◌else◌,
}
use osg_gateway.Base.GoMap.{GoMap, lookup, has, lookup-insert}
use osg_gateway.Http.{trim_space}
use osg_gateway.Serve.Resolve.{alias, alias_git_hub_token_keys}

abbrev is_aliased : Option String → Bool → Bool
is_aliased none taken = false
is_aliased (some text) taken = neg (trim_space text == "") && neg taken

lookup-alias :
    (key k : String) (t : Option String) (taken : Bool) (out : GoMap String)
    → lookup k (alias key t taken out)
      ≡ (if is_aliased t taken && key == k then t else lookup k out)
lookup-alias key k none taken out = refl
lookup-alias key k (some text) taken out = ground (arith, lookup-insert key k text out)

lookup-aliased :
    (k : String) (out : GoMap String)
    → let gh = lookup "GITHUB_TOKEN" out in
      let tok = lookup "GH_TOKEN" out in
      lookup k (alias_git_hub_token_keys out) ≡ (
        if is_aliased tok (is_some gh) && "GITHUB_TOKEN" == k
        then tok
        else if is_aliased gh (is_some tok) && "GH_TOKEN" == k
        then gh
        else lookup k out)
unfolding alias_git_hub_token_keys
lookup-aliased k out =
    let gh = lookup "GITHUB_TOKEN" out in
    let tok = lookup "GH_TOKEN" out in
    lookup-alias "GITHUB_TOKEN" k tok (is_some gh) (alias "GH_TOKEN" gh (is_some tok) out)
    ∙ ap (λ o. if is_aliased tok (is_some gh) && "GITHUB_TOKEN" == k then tok else o)
        (lookup-alias "GH_TOKEN" k gh (is_some tok) out)

-- Aliasing keeps every secret, adds only the two GitHub names, and where one of these two has a
-- text that is not blank, both are there.
alias_git_hub_token_keys_effect :
    (out : GoMap String)
    → let aliased = alias_git_hub_token_keys out in
      ((key text : String) → lookup key out ≡ some text → lookup key aliased ≡ some text)
      × ((key : String)
          → key ≢ "GITHUB_TOKEN"
          → key ≢ "GH_TOKEN"
          → lookup key aliased ≡ lookup key out)
      × ((text : String)
          → lookup "GITHUB_TOKEN" out ≡ some text
          → (trim_space text == "") ≡ false
          → has "GH_TOKEN" aliased ≡ true)
      × ((text : String)
          → lookup "GH_TOKEN" out ≡ some text
          → (trim_space text == "") ≡ false
          → has "GITHUB_TOKEN" aliased ≡ true)
alias_git_hub_token_keys_effect out = (
  λ key text h.
      ground (arith, lookup-aliased key out, eq_iff "GITHUB_TOKEN" key, eq_iff "GH_TOKEN" key),
  λ key a b.
      ground (arith, lookup-aliased key out, eq_iff "GITHUB_TOKEN" key, eq_iff "GH_TOKEN" key),
  λ text h n. ground (arith, lookup-aliased "GH_TOKEN" out),
  λ text h n. ground (arith, lookup-aliased "GITHUB_TOKEN" out),
)
