-- ===== src/Filters/Rewrite.antt =====
-- src/filters/http/URLRewrite.js. `path_join` is os.path.join.
use fgw.Base.{
  List, Option, none, some, Text, txt, truthy, drop, length, insert, text_equality, if◌then◌else◌,
}

-- `urlRewrite.path`, by its type.
pub data PathRewrite : Type 0 where
  replace_full_path : Text → PathRewrite
  replace_prefix_match : Text → PathRewrite
  other : PathRewrite

pub record UrlRewrite : Type 0 where
  pub hostname : Text
  pub path : PathRewrite

pub record RequestHead : Type 0 where
  pub path : Text
  pub headers : List (Text × Text)

module _ (path_join : Text → Text → Text) where
  abbrev or_slash : Text → Text
  or_slash p = if truthy p then p else txt "/"

  abbrev replace_prefix : Text → Option Text → Text → Text
  replace_prefix prefix none path = path
  replace_prefix prefix (some base) path =
      if truthy base then or_slash (path_join prefix (drop (length base) path)) else path

  -- The rewriter, with $ctx.basePath.
  unfoldable pub rewrite_path : PathRewrite → Option Text → Text → Text
  rewrite_path (replace_full_path p) base path = p
  rewrite_path (replace_prefix_match p) base path = replace_prefix p base path
  rewrite_path other base path = path

  -- The handler of the head of a request.
  unfoldable pub rewrite_head : UrlRewrite → Option Text → RequestHead → RequestHead
  unfolding rewrite_path
  rewrite_head c base head = record {
    path = rewrite_path c.path base head.path;
    headers =
        if truthy c.hostname then insert (txt "host") c.hostname head.headers else head.headers;
  }
