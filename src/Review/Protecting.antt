-- ===== src/Review/Protecting.antt =====
-- What a passed check of protected paths means (review/protectedpaths.go: CheckProtectedPaths).
