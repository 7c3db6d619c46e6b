-- ===== src/Router/Page.antt =====
-- internal/http/router/router.go: `redocHTML`.
use Prim.Native.String.{String, ◌++◌}

abbrev pub redoc_html : String
redoc_html =
    "<!DOCTYPE html>\n" ++ "\t<html>\n" ++ "\t<head>\n" ++ "\t\t<meta charset=\"utf-8\" />\n"
    ++ "\t\t<title>API Docs</title>\n"
    ++ "\t\t<link rel=\"shortcut icon\" href=\"https://ReDoc.ly/favicon.ico\" />\n"
    ++ "\t\t<style>body { margin: 0; padding: 0; } </style>\n" ++ "\t</head>\n" ++ "\t<body>\n"
    ++ "\t\t<redoc spec-url='/openapi.yaml'></redoc>\n"
    ++ "\t\t<script src=\"https://cdn.redoc.ly/redoc/latest/bundles/redoc.standalone.js\"></script>\n"
    ++ "\t</body>\n" ++ "\t</html>"
