-- ===== src/Targeting/Boundary/Tables.antt =====
-- The package tables of internal/semantic/targeting/import_boundary.go, by the extension of the file.
use zero_trust_sh.Prelude.{List, [], ◌∷◌, if◌then◌else◌}
use zero_trust_sh.Prelude.Text.{Bytes, codes, str_eq}

unfoldable pub source_pkg_prefixes : Bytes → List Bytes
unfolding str_eq
source_pkg_prefixes ext =
    if str_eq ext (codes ".java")
    then codes "javax.servlet"
      ∷ codes "jakarta.servlet"
      ∷ codes "org.springframework.web"
      ∷ codes "javax.ws.rs"
      ∷ codes "jakarta.ws.rs"
      ∷ codes "io.javalin"
      ∷ codes "io.vertx.web"
      ∷ codes "io.micronaut.http"
      ∷ codes "io.quarkus.vertx.http"
      ∷ codes "ratpack.handling"
      ∷ []
    else if str_eq ext (codes ".py")
    then codes "flask"
      ∷ codes "django.http"
      ∷ codes "django.views"
      ∷ codes "django.shortcuts"
      ∷ codes "fastapi"
      ∷ codes "aiohttp.web"
      ∷ codes "tornado.web"
      ∷ codes "starlette"
      ∷ codes "bottle"
      ∷ codes "falcon"
      ∷ codes "quart"
      ∷ codes "sanic"
      ∷ codes "litestar"
      ∷ []
    else if str_eq ext (codes ".go")
    then codes "\"net/http\""
      ∷ codes "\"github.com/gin-gonic/gin\""
      ∷ codes "\"github.com/labstack/echo\""
      ∷ codes "\"github.com/gofiber/fiber\""
      ∷ codes "\"github.com/gorilla/mux\""
      ∷ codes "\"github.com/julienschmidt/httprouter\""
      ∷ codes "\"github.com/go-chi/chi\""
      ∷ codes "\"github.com/valyala/fasthttp\""
      ∷ []
    else []

unfoldable pub sink_pkg_prefixes : Bytes → List Bytes
unfolding str_eq
sink_pkg_prefixes ext =
    if str_eq ext (codes ".java")
    then codes "java.sql"
      ∷ codes "javax.sql"
      ∷ codes "jakarta.persistence"
      ∷ codes "org.springframework.data"
      ∷ codes "org.springframework.jdbc"
      ∷ codes "org.hibernate"
      ∷ codes "com.mongodb"
      ∷ codes "java.io.File"
      ∷ codes "java.nio.file"
      ∷ codes "java.lang.Runtime"
      ∷ codes "java.lang.ProcessBuilder"
      ∷ codes "org.springframework.ldap"
      ∷ []
    else if str_eq ext (codes ".py")
    then codes "sqlite3"
      ∷ codes "psycopg2"
      ∷ codes "pymysql"
      ∷ codes "sqlalchemy"
      ∷ codes "django.db"
      ∷ codes "pymongo"
      ∷ codes "redis"
      ∷ codes "motor"
      ∷ codes "aiomysql"
      ∷ codes "subprocess"
      ∷ codes "paramiko"
      ∷ codes "fabric"
      ∷ []
    else if str_eq ext (codes ".go")
    then codes "\"database/sql\""
      ∷ codes "\"gorm.io/gorm\""
      ∷ codes "\"go.mongodb.org/mongo-driver\""
      ∷ codes "\"github.com/jmoiron/sqlx\""
      ∷ codes "\"os/exec\""
      ∷ codes "\"github.com/go-redis/redis\""
      ∷ codes "\"github.com/redis/go-redis\""
      ∷ codes "\"os\""
      ∷ codes "\"io/ioutil\""
      ∷ codes "\"path/filepath\""
      ∷ codes "\"archive/zip\""
      ∷ []
    else []

unfoldable pub auth_pkg_prefixes : Bytes → List Bytes
unfolding str_eq
auth_pkg_prefixes ext =
    if str_eq ext (codes ".java")
    then codes "org.springframework.security"
      ∷ codes "javax.servlet.http.HttpSession"
      ∷ codes "jakarta.servlet.http.HttpSession"
      ∷ codes "io.jsonwebtoken"
      ∷ codes "org.keycloak"
      ∷ codes "com.auth0"
      ∷ codes "io.micronaut.security"
      ∷ []
    else if str_eq ext (codes ".py")
    then codes "flask_login"
      ∷ codes "flask_jwt"
      ∷ codes "flask_jwt_extended"
      ∷ codes "django.contrib.auth"
      ∷ codes "fastapi_users"
      ∷ codes "fastapi.security"
      ∷ codes "jose"
      ∷ codes "jwt"
      ∷ codes "authlib"
      ∷ codes "itsdangerous"
      ∷ []
    else if str_eq ext (codes ".go")
    then codes "\"github.com/golang-jwt/jwt\""
      ∷ codes "\"github.com/dgrijalva/jwt-go\""
      ∷ codes "\"github.com/lestrrat-go/jwx\""
      ∷ codes "\"golang.org/x/oauth2\""
      ∷ codes "\"github.com/casbin/casbin\""
      ∷ []
    else []

unfoldable pub storage_pkg_prefixes : Bytes → List Bytes
unfolding str_eq
storage_pkg_prefixes ext =
    if str_eq ext (codes ".java")
    then codes "org.springframework.data"
      ∷ codes "org.hibernate"
      ∷ codes "javax.persistence"
      ∷ codes "jakarta.persistence"
      ∷ codes "redis.clients"
      ∷ codes "com.google.cloud.storage"
      ∷ codes "software.amazon.awssdk.services.s3"
      ∷ []
    else if str_eq ext (codes ".py")
    then codes "sqlalchemy"
      ∷ codes "django.db"
      ∷ codes "pymongo"
      ∷ codes "motor"
      ∷ codes "redis"
      ∷ codes "aioredis"
      ∷ codes "boto3"
      ∷ codes "botocore"
      ∷ []
    else if str_eq ext (codes ".go")
    then codes "\"database/sql\""
      ∷ codes "\"go.mongodb.org/mongo-driver\""
      ∷ codes "\"github.com/go-redis/redis\""
      ∷ codes "\"gorm.io/gorm\""
      ∷ codes "\"github.com/jackc/pgx\""
      ∷ codes "\"github.com/lib/pq\""
      ∷ []
    else []

abbrev pub skip_dirs : List Bytes
skip_dirs =
    codes "vendor"
    ∷ codes "node_modules"
    ∷ codes ".git"
    ∷ codes "target"
    ∷ codes "build"
    ∷ codes "dist"
    ∷ codes "__pycache__"
    ∷ codes ".gradle"
    ∷ codes ".mvn"
    ∷ codes "test"
    ∷ codes "tests"
    ∷ codes "it"
    ∷ []
